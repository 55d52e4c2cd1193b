-- ===== src/Refresh/Uids.antt =====
-- What is stored of data that was inserted, and what the query for it returns.
use managed_tokens.Base.{ℕ, suc, ◌≡◌, refl, sym, ◌∙◌, ap, String, Bool, true, arith}
use managed_tokens.Base.{Option, none, some, List, [], ◌∷◌, contains}
use managed_tokens.Base.{nat_comparable, string_comparable, Bool-cases, Option-cases, inl, inr}
use managed_tokens.Base.Dict.{Dict, lookup}
use managed_tokens.Base.Lists.{All}
use mathlib.Core.Path.{subst}
use mathlib.Core.Option.{some-injective}
use managed_tokens.Database.{Value, text, integer, Tables, affine, exec_all}
use managed_tokens.Database.Rows.{
  Result, ok, no_rows, wrong_structure, wrong_type, driver_error, ◌>>=◌, unpack_data,
  unpack_name_and_number,
}
use managed_tokens.Database.Uids.{
  uid_of, uid_taken_by_other, put_uid, insert_into_uid_table, select_uids,
}
use managed_tokens.Database.Ids.{same_self}
use managed_tokens.Database.Validity.{NodupUsers, uid_of-put_uid}
use managed_tokens.Refresh.{datum_comparable}

abbrev pub Agrees : Option ℕ → ℕ → Type 0
Agrees none n = Unit
Agrees (some m) n = m ≡ n

-- A user that is given more than once has one UID.
abbrev pub IsConsistent : List (String × ℕ) → Type 0
IsConsistent [] = Unit
IsConsistent ((u, n) ∷ rest) = Agrees (lookup rest u) n × IsConsistent rest

-- The users whose names are stored as texts.
abbrev pub HasTexts : Dict Value ℕ → Type 0
HasTexts [] = Unit
HasTexts ((text _, _) ∷ m) = HasTexts m
HasTexts ((integer _, _) ∷ m) = ⊥

module _ (numeral : String → Option ℕ) where
  abbrev pub IsPlain : String × ℕ → Type 0
  IsPlain d = numeral d.0 ≡ none

  abbrev pub IsStored : Tables → String × ℕ → Type 0
  IsStored t d = uid_of t.uids (text d.0) ≡ some d.1

  -- One statement that succeeded.
  pub inserted :
      (u : String) (n : ℕ) (t t' : Tables)
      → numeral u ≡ none
      → insert_into_uid_table numeral (u, n) t ≡ some t'
      → t'.uids ≡ put_uid t.uids (text u) n
  unfolding insert_into_uid_table
  inserted u n t t' plain h = elim (Bool-cases (uid_taken_by_other t.uids (affine numeral u) n)) [
    | inl taken ↦ absurd (let e : none ≡ some t' = rw taken at h in cc)
    | inr free ↦
        let e = ap (λ x. x.uids) (some-injective _ _ (rw free at h)) in
        let f : affine numeral u ≡ text u = ground arith in sym e ∙ ap (λ v. put_uid t.uids v n) f
  ]

  still_stored :
      (fails : ℕ → Bool) (k : ℕ) (rows : List (String × ℕ)) (t t' : Tables) (u : String) (n : ℕ)
      → All IsPlain rows
      → Agrees (lookup rows u) n
      → IsConsistent rows
      → exec_all (insert_into_uid_table numeral) fails k rows t ≡ some t'
      → IsStored t (u, n)
      → IsStored t' (u, n)
  unfolding exec_all lookup
  still_stored fails k [] t t' u n plain agrees consistent h there =
      subst (λ x. IsStored x (u, n)) (some-injective _ _ h) there
  still_stored fails k ((v, m) ∷ rows) t t' u n (p, plain) agrees (first, consistent) h there =
      elim (Bool-cases (fails k)) [
        | inl bad ↦ absurd (let e : none ≡ some t' = rw bad at h in cc)
        | inr fine ↦ elim (Option-cases (insert_into_uid_table numeral (v, m) t)) [
          | inl bad ↦ absurd (let e : none ≡ some t' = rw (fine, bad) at h in cc)
          | inr (t1, done) ↦
              still_stored fails (suc k) rows t1 t' u n plain (ground arith) consistent
                (rw (fine, done) at h)
                (ap (λ x. uid_of x (text u)) (inserted v m t t1 p done)
                  ∙ uid_of-put_uid t.uids (text v) (text u) m
                  ∙ ground arith)
        ]
      ]

  -- After an insertion that succeeded, each user has the UID that was given.
  pub all_stored :
      (fails : ℕ → Bool) (k : ℕ) (rows : List (String × ℕ)) (t t' : Tables)
      → All IsPlain rows
      → IsConsistent rows
      → exec_all (insert_into_uid_table numeral) fails k rows t ≡ some t'
      → All (IsStored t') rows
  unfolding exec_all
  all_stored fails k [] t t' plain consistent h = tt
  all_stored fails k ((u, n) ∷ rows) t t' (p, plain) (first, consistent) h =
      elim (Bool-cases (fails k)) [
        | inl bad ↦ absurd (let e : none ≡ some t' = rw bad at h in cc)
        | inr fine ↦ elim (Option-cases (insert_into_uid_table numeral (u, n) t)) [
          | inl bad ↦ absurd (let e : none ≡ some t' = rw (fine, bad) at h in cc)
          | inr (t1, done) ↦
              let rest = rw (fine, done) at h in
              let there =
                ap (λ x. uid_of x (text u)) (inserted u n t t1 p done)
                ∙ uid_of-put_uid t.uids (text u) (text u) n in
              (
                still_stored fails (suc k) rows t1 t' u n plain first consistent rest
                    (ground (arith, there, same_self (text u))),
                all_stored fails (suc k) rows t1 t' plain consistent rest,
              )
        ]
      ]

-- Unpacking one row, and then the others.
unpack_user :
    (v : Value) (n : ℕ) (rest : List (List Value)) (found : List (String × ℕ))
    → unpack_data unpack_name_and_number ((v ∷ integer n ∷ []) ∷ rest) ≡ ok found
    → (name : String) × (more : List (String × ℕ)) × (v ≡ text name)
      × (unpack_data unpack_name_and_number rest ≡ ok more)
      × (found ≡ (name, n) ∷ more)
unfolding unpack_data
unpack_user (integer m) n rest found h = cc
unpack_user (text s) n rest found h = unpack_rest (unpack_data unpack_name_and_number rest) refl h
  where
    unpack_rest :
        (r : Result (List (String × ℕ)))
        → unpack_data unpack_name_and_number rest ≡ r
        → (r >>= λ xs. ok ((s, n) ∷ xs)) ≡ ok found
        → (name : String) × (more : List (String × ℕ)) × (text s ≡ text name)
          × (unpack_data unpack_name_and_number rest ≡ ok more)
          × (found ≡ (name, n) ∷ more)
    unpack_rest (ok more) e h = (s, more, refl, e, cc)
    unpack_rest no_rows e h = cc
    unpack_rest wrong_structure e h = cc
    unpack_rest wrong_type e h = cc
    unpack_rest driver_error e h = cc

-- A datum that is stored is among the rows.
pub stored-contains :
    (m : Dict Value ℕ) (found : List (String × ℕ)) (u : String) (n : ℕ)
    → unpack_data unpack_name_and_number (select_uids m) ≡ ok found
    → uid_of m (text u) ≡ some n
    → contains found (u, n) ≡ true
unfolding uid_of datum_comparable nat_comparable
stored-contains [] found u n h there = cc
stored-contains ((v, k) ∷ m) found u n h there =
    let (name, more, is_text, unpacked, e) = unpack_user v k (select_uids m) found h in
    ap (λ rows. contains rows (u, n)) e ∙ ground (arith, stored-contains m more u n unpacked)

-- A datum among the rows is stored, where no user has two rows.
pub contains-stored :
    (m : Dict Value ℕ) (found : List (String × ℕ)) (u : String) (n : ℕ)
    → NodupUsers m
    → unpack_data unpack_name_and_number (select_uids m) ≡ ok found
    → contains found (u, n) ≡ true
    → uid_of m (text u) ≡ some n
unfolding uid_of datum_comparable unpack_data
contains-stored [] found u n distinct h c = ground arith
contains-stored ((v, k) ∷ m) found u n (fresh, _, distinct) h c =
    let (name, more, is_text, unpacked, e) = unpack_user v k (select_uids m) found h in
    let c' : contains ((name, k) ∷ more) (u, n) ≡ true =
      ap (λ rows. contains rows (u, n)) (sym e) ∙ c in
    ground (arith, contains-stored m more u n distinct unpacked)
