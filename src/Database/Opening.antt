-- ===== src/Database/Opening.antt =====
-- internal/db/db.go and migration.go: opening the database, creating it and its migrations. What
-- a call of the driver returns is an argument. The version is set by the text of a migration.
pub mod Accepted
use managed_tokens.Base.{ℕ, zero, suc, ◌-◌, Bool, true, false, Option, none, some, List, [], ◌∷◌}
use managed_tokens.Base.{◌==◌, ltb, if◌then◌else◌, nat_comparable}

abbrev pub application_id : ℕ
application_id = 1571300691

abbrev pub schema_version : ℕ
schema_version = 1

-- len(migrations)
abbrev pub migrations : ℕ
migrations = 1

-- The file: its PRAGMA application_id and user_version, and the migrations whose tables it has.
pub record File : Type 0 where
  pub application : ℕ
  pub user_version : ℕ
  pub applied : List ℕ

pub data OpenError : Type 0 where
  open_failed create_failed pragma_failed check_failed no_such_migration migration_failed
        remove_failed :
      OpenError

-- What os.Remove does: it removes the file, says that there is none, or fails otherwise.
pub data Removal : Type 0 where
  removed missing denied : Removal

-- Which calls fail. `migrating` gives, by the number of the migration, the statement of its text
-- that fails, if any.
pub record OpenFaults : Type 0 where
  pub opening : Bool
  pub setting_application_id : Bool
  pub migrating : ℕ → Option ℕ
  pub removing : Removal
  pub foreign_keys : Bool
  pub reading_application_id : Bool
  pub reading_user_version : Bool

-- Executing `migrations[i]`, and whether it failed. Its statements are no transaction: the first
-- sets user_version, so a failure of a later one leaves the version without all the tables.
abbrev pub exec_migration : (ℕ → Option ℕ) → ℕ → File → File × Bool
exec_migration fails i f = elim (fails i) [
  | none ↦ (record f { user_version = suc i; applied = i ∷ f.applied }, false)
  | some zero ↦ (f, true)
  | some (suc k) ↦ (record f { user_version = suc i }, true)
]

-- The loop of migrate, for `count` migrations from `i`: the file, and the error if any.
unfoldable pub migrate_loop : (ℕ → Option ℕ) → ℕ → ℕ → File → File × Option OpenError
migrate_loop fails i zero f = (f, none)
migrate_loop fails i (suc count) f =
    let (f', bad) = exec_migration fails i f in
    let rest = migrate_loop fails (suc i) count f' in
    if bad then (f', some migration_failed) else rest

unfoldable pub migrate : (ℕ → Option ℕ) → ℕ → ℕ → File → File × Option OpenError
migrate fails from to f =
    if ltb migrations to then (f, some no_such_migration) else migrate_loop fails from (to - from) f

-- initialize, from an empty file
unfoldable pub initialize : OpenFaults → File × Option OpenError
initialize faults =
    let empty : File = record { application = 0; user_version = 0; applied = [] } in
    if faults.opening
    then (empty, some open_failed)
    else if faults.setting_application_id
    then (empty, some create_failed)
    else migrate faults.migrating 0 schema_version (record empty { application = application_id })

-- The end of create after a failed initialize: the error of os.Remove is returned only if it says
-- that there is no file.
abbrev pub remove_corrupt : Removal → File → OpenError → Option File × Option OpenError
remove_corrupt removed f e = (none, some e)
remove_corrupt missing f e = (none, some remove_failed)
remove_corrupt denied f e = (some f, some e)

-- create: the file that is left, if any, and the error.
abbrev pub created : OpenFaults → File × Option OpenError → Option File × Option OpenError
created faults (f, none) = (some f, none)
created faults (f, some error) = remove_corrupt faults.removing f error

unfoldable pub create : OpenFaults → Option File × Option OpenError
create faults = created faults (initialize faults)

-- checkApplicationId: whether it returns no error
unfoldable pub check_application_id : OpenFaults → File → Bool
check_application_id faults f =
    if faults.reading_application_id then false else f.application == application_id

-- A failed migration is a databaseCheckError.
abbrev pub check_migrated : File × Option OpenError → File × Option OpenError
check_migrated (f, none) = (f, none)
check_migrated (f, some _) = (f, some check_failed)

-- The part of check on the version.
unfoldable pub check_version : OpenFaults → File → File × Option OpenError
check_version faults f =
    if faults.reading_user_version
    then (f, some check_failed)
    else if ltb f.user_version schema_version
    then check_migrated (migrate faults.migrating f.user_version schema_version f)
    else (f, none)

-- check
unfoldable pub check : OpenFaults → File → File × Option OpenError
check faults f =
    if check_application_id faults f then check_version faults f else (f, some check_failed)

abbrev pub connect : OpenFaults → File → File × Option OpenError
connect faults f = if faults.foreign_keys then (f, some pragma_failed) else check faults f

abbrev pub keep_file : File × Option OpenError → Option File × Option OpenError
keep_file (f, e) = (some f, e)

-- What follows create in OpenOrCreateDatabase.
abbrev pub connect_created :
    OpenFaults → Option File × Option OpenError → Option File × Option OpenError
connect_created faults (file, some error) = (file, some error)
connect_created faults (none, none) = (none, none)
connect_created faults (some f, none) = keep_file (connect faults f)

-- OpenOrCreateDatabase, by whether the file is there: the file that is left, and the error.
unfoldable pub open_or_create_database : OpenFaults → Option File → Option File × Option OpenError
open_or_create_database faults none = connect_created faults (create faults)
open_or_create_database faults (some f) =
    if faults.opening then (some f, some open_failed) else keep_file (connect faults f)
