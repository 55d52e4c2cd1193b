-- ===== src/Database/Opening/Accepted.antt =====
-- What is known of a file that OpenOrCreateDatabase accepts, and what is not.
use managed_tokens.Base.{ℕ, zero, suc, ◌+◌, ◌-◌, ◌≤◌, ◌≡◌, ◌≢◌, refl, sym, ◌∙◌, true, false}
use managed_tokens.Base.{Option, none, some, [], ◌∷◌, arith, ltb}
use managed_tokens.Base.{nat_comparable, Bool-cases, Option-cases, inl, inr}
use managed_tokens.Database.Opening.{
  File, OpenError, migration_failed, check_failed, pragma_failed, open_failed, OpenFaults, removed,
  missing, denied, application_id, schema_version, migrate_loop, migrate, initialize, created,
  remove_corrupt, create, check_application_id, check_migrated, check_version, check,
  connect_created, connect, keep_file, open_or_create_database,
}

-- The file is this application's, and of the schema's version or a later one.
pub record IsCurrent (f : File) : Type 0 where
  pub application : f.application ≡ application_id
  pub version : schema_version ≤ f.user_version

-- Migrations that fail nowhere lead, one version at a time, to the last.
migrate_loop_lem :
    (fails : ℕ → Option ℕ) (i count : ℕ) (f : File)
    → f.user_version ≡ i
    → (migrate_loop fails i count f).1 ≡ none
    → ((migrate_loop fails i count f).0.user_version ≡ i + count)
      × ((migrate_loop fails i count f).0.application ≡ f.application)
unfolding migrate_loop
migrate_loop_lem fails i zero f e h = (omega (arith, e), refl)
migrate_loop_lem fails i (suc count) f e h = elim (Option-cases (fails i)) [
  | inl fine ↦ ground (
    arith,
    migrate_loop_lem fails (suc i) count
        (record f { user_version = suc i; applied = i ∷ f.applied }) refl,
  )
  | inr (k, bad) ↦ ground arith
]

migrate_version :
    (fails : ℕ → Option ℕ) (f : File)
    → (migrate fails f.user_version schema_version f).1 ≡ none
    → (schema_version ≤ (migrate fails f.user_version schema_version f).0.user_version)
      × ((migrate fails f.user_version schema_version f).0.application ≡ f.application)
unfolding migrate
migrate_version fails f h =
    ground (arith, migrate_loop_lem fails f.user_version (schema_version - f.user_version) f refl)

checked :
    (r : File × Option OpenError)
    → (check_migrated r).1 ≡ none
    → (r.1 ≡ none) × ((check_migrated r).0 ≡ r.0)
checked (f, none) h = (refl, refl)
checked (f, some e) h = cc

version-IsCurrent :
    (faults : OpenFaults) (f : File)
    → f.application ≡ application_id
    → (check_version faults f).1 ≡ none
    → IsCurrent (check_version faults f).0
unfolding check_version
version-IsCurrent faults f ours h = elim (Bool-cases faults.reading_user_version) [
  | inl bad ↦ absurd (let e : some check_failed ≡ none = rw bad at h in cc)
  | inr fine ↦ elim (Bool-cases (ltb f.user_version schema_version)) [
    | inl older ↦
        let migrated = migrate faults.migrating f.user_version schema_version f in
        let (done, same_file) = checked migrated (rw (fine, older) at h) in
        let (version, application) = migrate_version faults.migrating f done in
        rw (fine, older, same_file) record { application = application ∙ ours; version = version }
    | inr newer ↦ rw (fine, newer) record { application = ours; version = ground arith }
  ]
]

ours_application :
    (faults : OpenFaults) (f : File)
    → check_application_id faults f ≡ true
    → f.application ≡ application_id
unfolding check_application_id
ours_application faults f h = ground arith

connect-IsCurrent :
    (faults : OpenFaults) (f : File) → (connect faults f).1 ≡ none → IsCurrent (connect faults f).0
unfolding check check_application_id check_version
connect-IsCurrent faults f h = elim (Bool-cases faults.foreign_keys) [
  | inl bad ↦ absurd (let e : some pragma_failed ≡ none = rw bad at h in cc)
  | inr fine ↦ elim (Bool-cases (check_application_id faults f)) [
    | inl ours ↦
        rw (fine, ours)
          (version-IsCurrent faults f (ours_application faults f ours) (rw (fine, ours) at h))
    | inr not_ours ↦ absurd (let e : some check_failed ≡ none = rw (fine, not_ours) at h in cc)
  ]
]

-- There is a file, and it is current.
abbrev pub HasCurrent : Option File → Type 0
HasCurrent none = ⊥
HasCurrent (some f) = IsCurrent f

kept_current :
    (faults : OpenFaults) (f : File)
    → (keep_file (connect faults f)).1 ≡ none
    → HasCurrent (keep_file (connect faults f)).0
kept_current faults f = connect-IsCurrent faults f

created_file :
    (faults : OpenFaults) (r : File × Option OpenError)
    → (created faults r).1 ≡ none
    → (created faults r).0 ≡ some r.0
created_file faults (f, none) h = refl
created_file faults (f, some e) h =
    elim faults.removing
        as (λ w. (remove_corrupt w f e).1 ≡ none → (remove_corrupt w f e).0 ≡ some f) [
          | removed ↦ λ h. cc
          | missing ↦ λ h. cc
          | denied ↦ λ h. cc
        ]
      h

connected_current :
    (faults : OpenFaults) (r : Option File × Option OpenError)
    → (r.1 ≡ none → r.0 ≢ none)
    → (connect_created faults r).1 ≡ none
    → HasCurrent (connect_created faults r).0
connected_current faults (none, none) made h = made refl refl
connected_current faults (some f, none) made h = kept_current faults f h
connected_current faults (none, some e) made h = cc
connected_current faults (some f, some e) made h = cc

-- Where the database is opened or created without an error, the file is there, it is this
-- application's, and its version is at least that of the schema, whatever it was before.
pub open_or_create-HasCurrent :
    (faults : OpenFaults) (file : Option File)
    → (open_or_create_database faults file).1 ≡ none
    → HasCurrent (open_or_create_database faults file).0
unfolding open_or_create_database create check check_application_id check_version
open_or_create-HasCurrent faults none h =
    connected_current faults (create faults)
      (λ done empty.
        let e : none ≡ some (initialize faults).0 =
          sym empty ∙ created_file faults (initialize faults) done in
        cc)
      h
open_or_create-HasCurrent faults (some f) h = elim (Bool-cases faults.opening) [
  | inl bad ↦ absurd (let e : some open_failed ≡ none = rw bad at h in cc)
  | inr fine ↦ rw fine (kept_current faults f (rw fine at h))
]

-- Creating a file fails after the first statement of the migration, and the file cannot be removed.
abbrev pub failing_after : ℕ → OpenFaults
failing_after k = record {
  opening = false;
  setting_application_id = false;
  migrating = λ _. some (suc k);
  removing = denied;
  foreign_keys = false;
  reading_application_id = false;
  reading_user_version = false;
}

-- Where creating a file fails at a later statement of the migration than the first, and the file
-- cannot be removed, an error is returned, but the file is then opened without an error and
-- unchanged, although its migration was not completed.
pub half_created_accepted :
    (k : ℕ) (faults : OpenFaults)
    → faults.opening ≡ false
    → faults.foreign_keys ≡ false
    → faults.reading_application_id ≡ false
    → faults.reading_user_version ≡ false
    → ((open_or_create_database (failing_after k) none).1 ≡ some migration_failed)
      × (open_or_create_database faults (open_or_create_database (failing_after k) none).0 ≡ (
        some (record { application = application_id; user_version = schema_version; applied = [] }),
        none,
      ))
unfolding open_or_create_database create initialize migrate migrate_loop check check_version
    check_application_id nat_comparable
half_created_accepted k faults a b c d = (refl, rw (a, b, c, d) refl)
