-- ===== src/Database/Validity.antt =====
-- The constraints of the schema that the code relies on, kept by every method that writes.
use managed_tokens.Base.{ℕ, ◌≡◌, ◌≢◌, refl, String, false, Option, none, some, List, [], ◌∷◌}
use managed_tokens.Base.{arith, if◌then◌else◌, nat_comparable, string_comparable}
use managed_tokens.Base.{inl, inr, Bool-cases}
use managed_tokens.Base.Dict.{Dict}
use mathlib.Core.Path.{subst}
use mathlib.Core.Option.{some-injective}
use managed_tokens.Database.{
  Value, same, Tables, Faults, affine, insert_into_services_table, insert_into_nodes_table,
  insert_or_update_setup_errors, insert_or_update_push_errors, update_services, update_nodes,
  update_setup_errors_table, update_push_errors_table,
}
use managed_tokens.Database.Uids.{
  uid_of, uid_taken, uid_taken_by_other, put_uid, insert_into_uid_table,
  insert_uids_into_table_from_ferry,
}
use managed_tokens.Database.Ids.{
  IsNameTable, insert_name-IsNameTable, same_eq, same_self, same_comm,
}
use managed_tokens.Database.Counts.{NodupSetup, NodupPush, upsert-NodupSetup, upsert-NodupPush}
use managed_tokens.Database.Transactions.{runner_inv}

-- No user has two rows, and no UID has two users.
abbrev pub NodupUsers : Dict Value ℕ → Type 0
NodupUsers [] = Unit
NodupUsers ((v, n) ∷ m) = (uid_of m v ≡ none) × (uid_taken m n ≡ false) × NodupUsers m

pub record IsValid (t : Tables) : Type 0 where
  pub services : IsNameTable t.services
  pub nodes : IsNameTable t.nodes
  pub setup : NodupSetup t.setup_errors
  pub push : NodupPush t.push_errors
  pub users : NodupUsers t.uids

pub uid_of-put_uid :
    (m : Dict Value ℕ) (v w : Value) (n : ℕ)
    → uid_of (put_uid m v n) w ≡ (if same w v then some n else uid_of m w)
unfolding uid_of put_uid
uid_of-put_uid [] v w n = refl
uid_of-put_uid ((x, k) ∷ m) v w n =
    ground (arith, same_eq v x, same_eq w v, same_self x, uid_of-put_uid m v w n)

-- A UID that no other user has is taken, after the user got it, by the user only.
uid_taken-put_uid :
    (m : Dict Value ℕ) (v : Value) (n k : ℕ)
    → k ≢ n
    → uid_taken m k ≡ false
    → uid_taken (put_uid m v n) k ≡ false
unfolding uid_taken put_uid
uid_taken-put_uid [] v n k h u = ground arith
uid_taken-put_uid ((x, j) ∷ m) v n k h u = ground (arith, uid_taken-put_uid m v n k h)

uid_taken_self :
    (m : Dict Value ℕ) (v : Value) (n : ℕ)
    → uid_of m v ≡ none
    → uid_taken_by_other m v n ≡ false
    → uid_taken m n ≡ false
unfolding uid_taken uid_taken_by_other uid_of
uid_taken_self [] v n h u = refl
uid_taken_self ((x, j) ∷ m) v n h u = ground (arith, uid_taken_self m v n)

put_uid-NodupUsers :
    (m : Dict Value ℕ) (v : Value) (n : ℕ)
    → uid_taken_by_other m v n ≡ false
    → NodupUsers m
    → NodupUsers (put_uid m v n)
unfolding put_uid uid_taken_by_other uid_of uid_taken
put_uid-NodupUsers [] v n h u = (refl, refl, tt)
put_uid-NodupUsers ((x, j) ∷ m) v n h (fresh, unique, u) = elim (Bool-cases (same v x)) [
  | inl match ↦ ground (arith, same_eq v x match, uid_taken_self m v n)
  | inr differ ↦ ground (
    arith,
    same_comm v x,
    uid_of-put_uid m v x n,
    uid_taken-put_uid m v n j,
    put_uid-NodupUsers m v n,
  )
]

-- The methods that write.
pub data Write : Type 0 where
  services : List String → Write
  nodes : List String → Write
  setup_errors : List (String × ℕ) → Write
  push_errors : List (String × String × ℕ) → Write
  uids : List (String × ℕ) → Write

module _ (numeral : String → Option ℕ) where
  pub update_setup-IsValid :
      (faults : Faults) (rows : List (String × ℕ)) (t : Tables)
      → IsValid t
      → IsValid (update_setup_errors_table numeral faults rows t).0
  unfolding update_setup_errors_table
  update_setup-IsValid = runner_inv (insert_or_update_setup_errors numeral) IsValid λ row t t' h v.
      subst IsValid (some-injective _ _ h) record {
        services = v.services;
        nodes = v.nodes;
        setup = upsert-NodupSetup t.setup_errors _ _ v.setup;
        push = v.push;
        users = v.users;
      }

  pub update_push-IsValid :
      (faults : Faults) (rows : List (String × String × ℕ)) (t : Tables)
      → IsValid t
      → IsValid (update_push_errors_table numeral faults rows t).0
  unfolding update_push_errors_table
  update_push-IsValid = runner_inv (insert_or_update_push_errors numeral) IsValid λ row t t' h v.
      subst IsValid (some-injective _ _ h) record {
        services = v.services;
        nodes = v.nodes;
        setup = v.setup;
        push = upsert-NodupPush t.push_errors _ _ _ v.push;
        users = v.users;
      }

  pub update_services-IsValid :
      (faults : Faults) (names : List String) (t : Tables)
      → IsValid t
      → IsValid (update_services numeral faults names t).0
  unfolding update_services
  update_services-IsValid = runner_inv (insert_into_services_table numeral) IsValid λ name t t' h v.
      subst IsValid (some-injective _ _ h) record {
        services = insert_name-IsNameTable numeral name t.services v.services;
        nodes = v.nodes;
        setup = v.setup;
        push = v.push;
        users = v.users;
      }

  pub update_nodes-IsValid :
      (faults : Faults) (names : List String) (t : Tables)
      → IsValid t
      → IsValid (update_nodes numeral faults names t).0
  unfolding update_nodes
  update_nodes-IsValid = runner_inv (insert_into_nodes_table numeral) IsValid λ name t t' h v.
      subst IsValid (some-injective _ _ h) record {
        services = v.services;
        nodes = insert_name-IsNameTable numeral name t.nodes v.nodes;
        setup = v.setup;
        push = v.push;
        users = v.users;
      }

  insert_uid-IsValid :
      (row : String × ℕ) (t t' : Tables)
      → insert_into_uid_table numeral row t ≡ some t'
      → IsValid t
      → IsValid t'
  unfolding insert_into_uid_table
  insert_uid-IsValid (username, uid) t t' h v =
      elim (Bool-cases (uid_taken_by_other t.uids (affine numeral username) uid)) [
        | inl taken ↦ absurd (let e : none ≡ some t' = rw taken at h in cc)
        | inr free ↦ subst IsValid (some-injective _ _ (rw free at h)) record {
          services = v.services;
          nodes = v.nodes;
          setup = v.setup;
          push = v.push;
          users = put_uid-NodupUsers t.uids (affine numeral username) uid free v.users;
        }
      ]

  pub insert_uids-IsValid :
      (faults : Faults) (rows : List (String × ℕ)) (t : Tables)
      → IsValid t
      → IsValid (insert_uids_into_table_from_ferry numeral faults rows t).0
  unfolding insert_uids_into_table_from_ferry
  insert_uids-IsValid = runner_inv (insert_into_uid_table numeral) IsValid insert_uid-IsValid

  abbrev pub write : Faults → Write → Tables → Tables
  write faults (services names) t = (update_services numeral faults names t).0
  write faults (nodes names) t = (update_nodes numeral faults names t).0
  write faults (setup_errors rows) t = (update_setup_errors_table numeral faults rows t).0
  write faults (push_errors rows) t = (update_push_errors_table numeral faults rows t).0
  write faults (uids rows) t = (insert_uids_into_table_from_ferry numeral faults rows t).0

  unfoldable pub write_all : List (Faults × Write) → Tables → Tables
  write_all [] t = t
  write_all ((faults, w) ∷ more) t = write_all more (write faults w t)

  -- After any calls of the methods that write, each of which may fail at any step, in tables that
  -- were valid, each id, name and user and each UID stands in one row, and each service, and each
  -- node of a service, has at most one count.
  pub write_all-IsValid :
      (calls : List (Faults × Write)) (t : Tables) → IsValid t → IsValid (write_all calls t)
  unfolding write_all
  write_all-IsValid [] t v = v
  write_all-IsValid ((faults, services names) ∷ more) t v =
      write_all-IsValid more _ (update_services-IsValid faults names t v)
  write_all-IsValid ((faults, nodes names) ∷ more) t v =
      write_all-IsValid more _ (update_nodes-IsValid faults names t v)
  write_all-IsValid ((faults, setup_errors rows) ∷ more) t v =
      write_all-IsValid more _ (update_setup-IsValid faults rows t v)
  write_all-IsValid ((faults, push_errors rows) ∷ more) t v =
      write_all-IsValid more _ (update_push-IsValid faults rows t v)
  write_all-IsValid ((faults, uids rows) ∷ more) t v =
      write_all-IsValid more _ (insert_uids-IsValid faults rows t v)
