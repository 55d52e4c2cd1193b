-- ===== src/Tests/Databases.antt =====
-- The database at concrete tables: a service and a node are registered and their counts kept.
use managed_tokens.Base.{ℕ, ◌≡◌, refl, String, true, false, Option, none, some, List, [], ◌∷◌}
use managed_tokens.Base.{nat_comparable, string_comparable}
use managed_tokens.Base.Dict.{lookup, insert}
use managed_tokens.Notifications.{Notification, push_error}
use managed_tokens.Notifications.ErrorCounts.{
  ServiceErrorCounts, adjust_error_counts, adjust_push, adjust_setup,
}
use managed_tokens.Notifications.ErrorCounts.Runs.{at_node, adjust_all, value_of}
use managed_tokens.Notifications.ErrorCounts.Rows.{next_value}
use managed_tokens.Notifications.ErrorCounts.Store.{
  IsLawful, add_rows, rows_to_store, store_push, store_setup, set_error_counts_by_service, fresh,
  save_error_counts_in_database,
}
use managed_tokens.Database.{
  Tables, Faults, text, id_of, next_id, insert_name, upsert_setup, upsert_push, exec_all,
  insert_values_transaction_runner, update_services, update_nodes, update_setup_errors_table,
  update_push_errors_table,
}
use managed_tokens.Database.Rows.{unpack_data}
use managed_tokens.Database.Queries.{
  join_setup, join_push, get_setup_errors_info_by_service, get_push_errors_info_by_service,
}
use managed_tokens.Database.Uids.{
  uid_taken_by_other, put_uid, insert_into_uid_table, insert_uids_into_table_from_ferry,
  confirm_uids_in_table,
}
use managed_tokens.Database.Validity.{
  IsValid, Write, services, nodes, setup_errors, uids, write_all, write_all-IsValid,
}
use managed_tokens.Database.Store.{Session, database, no_faults, count_in, IsRegistered}
use managed_tokens.Database.Lawful.{database-IsLawful}
use managed_tokens.Database.Remembering.{session, registered_counts_survive}
use managed_tokens.Database.Opening.{
  OpenFaults, removed, open_or_create_database, create, initialize, migrate, migrate_loop, check,
  check_version, check_application_id, application_id, schema_version, migration_failed,
}
use managed_tokens.Database.Opening.Accepted.{
  HasCurrent, open_or_create-HasCurrent, failing_after, half_created_accepted,
}
use managed_tokens.Refresh.{
  Settings, tls, Answer, parsed, collect, run, finished, check_ferry_data_in_db, datum_comparable,
  insert_and_verify,
}
use managed_tokens.Refresh.Uids.{IsStored}
use managed_tokens.Refresh.Verified.{collected, run_verified, run_finishes}

-- No name is a numeral.
abbrev no_numeral : String → Option ℕ
no_numeral _ = none

abbrev empty : Tables
empty = record { services = []; nodes = []; setup_errors = []; push_errors = []; uids = [] }

empty-IsValid : IsValid empty
empty-IsValid = record {
  services = record { ids = tt; names = tt };
  nodes = record { ids = tt; names = tt };
  setup = tt;
  push = tt;
  users = tt;
}

-- The second transaction cannot be committed.
abbrev no_commit : Faults
no_commit = record no_faults { commit = true }

abbrev some_writes : List (Faults × Write)
some_writes =
    (no_faults, services ("dune_production" ∷ "mu2e_analysis" ∷ []))
    ∷ (no_commit, nodes ("node1" ∷ []))
    ∷ (no_faults, setup_errors (("dune_production", 2) ∷ ("dune_production", 3) ∷ []))
    ∷ (no_faults, uids (("duneana", 7) ∷ ("duneana", 8) ∷ []))
    ∷ []

write_all-IsValid_example : IsValid (write_all no_numeral some_writes empty)
write_all-IsValid_example = write_all-IsValid no_numeral some_writes empty empty-IsValid

-- The count of a service is that of its last row, and the UID of a user the last that it got.
written : write_all no_numeral some_writes empty ≡ record {
  services = (1, text "dune_production") ∷ (2, text "mu2e_analysis") ∷ [];
  nodes = [];
  setup_errors = (some 1, 3) ∷ [];
  push_errors = [];
  uids = (text "duneana", 8) ∷ [];
}
unfolding write_all update_services update_nodes update_setup_errors_table
    insert_uids_into_table_from_ferry insert_values_transaction_runner exec_all insert_name insert
    next_id id_of upsert_setup insert_into_uid_table uid_taken_by_other put_uid string_comparable
    nat_comparable
written = refl

database-IsLawful_example :
    IsLawful (database no_numeral) (λ s. count_in no_numeral s.0) (λ s. IsRegistered no_numeral s.0)
database-IsLawful_example = database-IsLawful no_numeral

abbrev one_push_error : List Notification
one_push_error = push_error "timeout" "dune_production" "node1" ∷ []

abbrev at_start : Session
at_start =
    session no_numeral no_faults no_faults ("dune_production" ∷ []) ("node1" ∷ []) empty
      empty-IsValid []

abbrev no_errors : ServiceErrorCounts
no_errors = record { setup_errors = fresh 0; push_errors = [] }

abbrev one_error : ServiceErrorCounts
one_error = record { setup_errors = fresh 0; push_errors = ("node1", fresh 1) ∷ [] }

services_ok : (update_services no_numeral no_faults ("dune_production" ∷ []) empty).1 ≡ true
unfolding update_services insert_values_transaction_runner exec_all
services_ok = refl

nodes_ok :
    (update_nodes no_numeral no_faults
      ("node1" ∷ [])
      (update_services no_numeral no_faults ("dune_production" ∷ []) empty).0).1
    ≡ true
unfolding update_nodes insert_values_transaction_runner exec_all
nodes_ok = refl

loaded_first :
    set_error_counts_by_service (database no_numeral) "dune_production" (some at_start)
    ≡ some no_errors
unfolding set_error_counts_by_service get_setup_errors_info_by_service
    get_push_errors_info_by_service join_setup join_push update_services update_nodes
    insert_values_transaction_runner exec_all insert_name insert next_id id_of string_comparable
    unpack_data add_rows
loaded_first = refl

saved_once :
    (save_error_counts_in_database
      (database no_numeral)
      "dune_production"
      at_start
      (adjust_all 3 no_errors one_push_error).0).1
    ≡ true
unfolding save_error_counts_in_database rows_to_store store_push store_setup adjust_all
    adjust_error_counts adjust_push adjust_setup insert lookup update_services update_nodes
    update_setup_errors_table update_push_errors_table insert_values_transaction_runner exec_all
    insert_name next_id id_of string_comparable
saved_once = refl

loaded_second :
    set_error_counts_by_service (database no_numeral) "dune_production" (
      some
        (save_error_counts_in_database
          (database no_numeral)
          "dune_production"
          at_start
          (adjust_all 3 no_errors one_push_error).0).0)
    ≡ some one_error
unfolding save_error_counts_in_database rows_to_store store_push store_setup adjust_all
    adjust_error_counts adjust_push adjust_setup insert lookup update_services update_nodes
    update_setup_errors_table update_push_errors_table insert_values_transaction_runner exec_all
    insert_name next_id id_of string_comparable set_error_counts_by_service
    get_setup_errors_info_by_service get_push_errors_info_by_service join_setup join_push
    unpack_data add_rows upsert_push nat_comparable
loaded_second = refl

registered_counts_survive_example :
    value_of (at_node "node1") one_error ≡ next_value 3 no_errors one_push_error (at_node "node1")
unfolding string_comparable
registered_counts_survive_example =
    registered_counts_survive no_numeral no_faults no_faults ("dune_production" ∷ []) ("node1" ∷ [])
      empty "dune_production" "node1" 3 one_push_error empty-IsValid [] no_errors one_error
      services_ok nodes_ok refl refl refl refl loaded_first saved_once loaded_second

abbrev no_open_faults : OpenFaults
no_open_faults = record {
  opening = false;
  setting_application_id = false;
  migrating = λ _. none;
  removing = removed;
  foreign_keys = false;
  reading_application_id = false;
  reading_user_version = false;
}

opened : (open_or_create_database no_open_faults none).1 ≡ none
unfolding open_or_create_database create initialize migrate migrate_loop check check_version
    check_application_id nat_comparable
opened = refl

open_or_create-HasCurrent_example : HasCurrent (open_or_create_database no_open_faults none).0
open_or_create-HasCurrent_example = open_or_create-HasCurrent no_open_faults none opened

half_created_accepted_example :
    ((open_or_create_database (failing_after 3) none).1 ≡ some migration_failed)
    × (open_or_create_database no_open_faults (open_or_create_database (failing_after 3) none).0 ≡ (
      some (record { application = application_id; user_version = schema_version; applied = [] }),
      none,
    ))
half_created_accepted_example = half_created_accepted 3 no_open_faults refl refl refl refl

abbrev plain_settings : Settings
plain_settings = record { disable_notifications = false; test = false; auth_method = tls }

-- The second account has no good answer.
abbrev answers : List (String × Answer)
answers = ("duneana", parsed "success" 7) ∷ ("mu2epro", parsed "failure" 0) ∷ []

collected_one : collected plain_settings answers ≡ ("duneana", 7) ∷ []
unfolding collect string_comparable
collected_one = refl

good_run : (run no_numeral plain_settings no_faults no_faults answers empty).ending ≡ finished
unfolding run collect string_comparable insert_and_verify insert_uids_into_table_from_ferry
    insert_values_transaction_runner exec_all insert_into_uid_table uid_taken_by_other put_uid
    confirm_uids_in_table unpack_data check_ferry_data_in_db datum_comparable nat_comparable
good_run = refl

run_verified_example :
    IsStored no_numeral
      (run no_numeral plain_settings no_faults no_faults answers empty).tables
      ("duneana", 7)
unfolding string_comparable
run_verified_example =
    run_verified no_numeral plain_settings no_faults no_faults []
      (("mu2epro", parsed "failure" 0) ∷ []) "duneana" "success" 7 empty empty-IsValid refl refl
      good_run

inserted_one :
    (insert_uids_into_table_from_ferry no_numeral no_faults
      (collected plain_settings answers)
      empty).1
    ≡ true
unfolding collect string_comparable insert_uids_into_table_from_ferry
    insert_values_transaction_runner exec_all insert_into_uid_table uid_taken_by_other put_uid
inserted_one = refl

run_finishes_example :
    (run no_numeral plain_settings no_faults no_faults answers empty).ending ≡ finished
unfolding collect string_comparable lookup
run_finishes_example =
    run_finishes no_numeral plain_settings no_faults no_faults answers empty tt (λ h. cc)
      inserted_one refl (refl, tt) (tt, tt) tt
