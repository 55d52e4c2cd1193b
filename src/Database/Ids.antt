-- ===== src/Database/Ids.antt =====
-- The ids of names: a table of names has each id and each name once, and keeps it so.
use managed_tokens.Base.{ℕ, ◌<◌, ◌≡◌, refl, String, true}
use managed_tokens.Base.{Option, none, some, [], ◌∷◌, arith, inl, inr}
use managed_tokens.Base.{if◌then◌else◌, nat_comparable, string_comparable, Option-cases}
use managed_tokens.Base.Dict.{Dict, lookup, insert, NodupKeys, insert-NodupKeys}
use managed_tokens.Database.{Value, text, integer, same, id_of, next_id, affine, insert_name}

pub same_eq : (v w : Value) → same v w ≡ true → v ≡ w
same_eq (text s) (text t) h = ground arith
same_eq (integer m) (integer n) h = ground arith
same_eq (text s) (integer n) h = cc
same_eq (integer m) (text t) h = cc

pub same_self : (v : Value) → same v v ≡ true
same_self (text s) = ground arith
same_self (integer m) = ground arith

pub same_comm : (v w : Value) → same v w ≡ same w v
same_comm (text s) (text t) = ground arith
same_comm (integer m) (integer n) = ground arith
same_comm (text s) (integer n) = refl
same_comm (integer m) (text t) = refl

-- No name is stored twice.
abbrev pub NodupNames : Dict ℕ Value → Type 0
NodupNames [] = Unit
NodupNames ((_, v) ∷ m) = (id_of m v ≡ none) × NodupNames m

pub record IsNameTable (m : Dict ℕ Value) : Type 0 where
  pub ids : NodupKeys m
  pub names : NodupNames m

pub lookup-id_of :
    (m : Dict ℕ Value) (v : Value) (i : ℕ) → NodupKeys m → id_of m v ≡ some i → lookup m i ≡ some v
unfolding lookup id_of
lookup-id_of [] v i u h = cc
lookup-id_of ((j, w) ∷ m) v i (fresh, u) h = ground (arith, same_eq v w, lookup-id_of m v i u)

pub id_of-lookup :
    (m : Dict ℕ Value) (v : Value) (i : ℕ) → NodupNames m → lookup m i ≡ some v → id_of m v ≡ some i
unfolding lookup id_of
id_of-lookup [] v i u h = cc
id_of-lookup ((j, w) ∷ m) v i (fresh, u) h =
    ground (arith, same_eq v w, same_self v, id_of-lookup m v i u)

next_id_above : (m : Dict ℕ Value) (i : ℕ) (v : Value) → lookup m i ≡ some v → i < next_id m
unfolding lookup next_id
next_id_above [] i v h = cc
next_id_above ((j, w) ∷ m) i v h = ground (arith, next_id_above m i v)

lookup-next_id : (m : Dict ℕ Value) → lookup m (next_id m) ≡ none
lookup-next_id m = elim (Option-cases (lookup m (next_id m))) [
  | inl missing ↦ missing
  | inr (v, there) ↦ absurd (omega (arith, next_id_above m (next_id m) v there))
]

-- A new id at the end of the table.
id_of-insert :
    (m : Dict ℕ Value) (i : ℕ) (v w : Value)
    → lookup m i ≡ none
    → id_of (insert m i v) w
      ≡ (elim (id_of m w) [ some j ↦ some j | none ↦ if same w v then some i else none ])
unfolding lookup insert id_of
id_of-insert [] i v w h = refl
id_of-insert ((j, x) ∷ m) i v w h = ground (arith, id_of-insert m i v w)

insert-NodupNames :
    (m : Dict ℕ Value) (i : ℕ) (v : Value)
    → lookup m i ≡ none
    → id_of m v ≡ none
    → NodupNames m
    → NodupNames (insert m i v)
unfolding lookup insert id_of
insert-NodupNames [] i v h k u = (refl, tt)
insert-NodupNames ((j, x) ∷ m) i v h k (fresh, u) =
    ground (arith, same_comm v x, id_of-insert m i v x, insert-NodupNames m i v)

module _ (numeral : String → Option ℕ) where
  pub insert_name-IsNameTable :
      (name : String) (m : Dict ℕ Value) → IsNameTable m → IsNameTable (insert_name numeral name m)
  unfolding insert_name
  insert_name-IsNameTable name m t = elim (Option-cases (id_of m (affine numeral name))) [
    | inl missing ↦
        rw (missing, insert_name)
          record {
            ids = insert-NodupKeys m (next_id m) (affine numeral name) t.ids;
            names =
                insert-NodupNames m (next_id m) (affine numeral name) (lookup-next_id m) missing
                  t.names;
          }
    | inr (i, there) ↦ rw (there, insert_name) t
  ]

  -- A name that is inserted is there, and the ids of the others are kept.
  pub id_of-insert_name :
      (name : String) (m : Dict ℕ Value) (v : Value) (i : ℕ)
      → id_of m v ≡ some i
      → id_of (insert_name numeral name m) v ≡ some i
  unfolding insert_name
  id_of-insert_name name m v i h =
      ground (arith, id_of-insert m (next_id m) (affine numeral name) v, lookup-next_id m)

  pub id_of-insert_name_self :
      (name : String) (m : Dict ℕ Value)
      → (i : ℕ) × (id_of (insert_name numeral name m) (affine numeral name) ≡ some i)
  unfolding insert_name
  id_of-insert_name_self name m = elim (Option-cases (id_of m (affine numeral name))) [
    | inl missing ↦ (
      next_id m,
      ground (
        arith,
        id_of-insert m (next_id m) (affine numeral name) (affine numeral name),
        lookup-next_id m,
        same_self (affine numeral name),
      ),
    )
    | inr (i, there) ↦ (i, ground arith)
  ]
