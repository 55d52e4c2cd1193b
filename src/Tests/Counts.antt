-- ===== src/Tests/Counts.antt =====
-- The counting of errors, at concrete runs.
use managed_tokens.Base.{◌*◌, ◌+◌, ◌<◌, ◌≡◌, ◌↔◌, refl, Bool, true, false, some, arith}
use managed_tokens.Base.{if◌then◌else◌, List, [], ◌∷◌, ◌++◌, nat_comparable, string_comparable}
use managed_tokens.Base.Dict.{lookup, insert}
use managed_tokens.Notifications.{Notification, setup_error, push_error}
use managed_tokens.Notifications.ErrorCounts.{
  ServiceErrorCounts, adjust_error_counts, adjust_push, adjust_setup,
}
use managed_tokens.Notifications.ErrorCounts.Runs.{
  setup, at_node, adjust_all, count, value_of, IsBelow, adjust_all-value_of, is_known, one_if_any,
  adjust_all_at_one,
}
use managed_tokens.Notifications.ErrorCounts.Store.{
  add_rows, rows_to_store, store_push, store_setup, set_error_counts_by_service, fresh,
  save_error_counts_in_database,
}
use managed_tokens.Notifications.ErrorCounts.Cycle.{load-save}
use managed_tokens.Notifications.ErrorCounts.Rows.{next_value}
use managed_tokens.Notifications.AdminManager.{
  Arrival, direct, source, AdminNotificationManager, closed, run_handler, returned,
}
use managed_tokens.Notifications.AdminManager.Separation.{
  receive_all, alone, counts_of, on_account_of, receive_all-alone,
}
use managed_tokens.Notifications.AdminManager.Saving.{
  AllSaved, ending_of, received_then, run_handler_returns, run_handler_read_only,
}
use managed_tokens.Tests.Memory.{
  in_memory, stored_count, Known, in_memory-IsLawful, Memory, collect,
}

abbrev two_errors : List Notification
two_errors =
    push_error "timeout" "dune_production" "node1" ∷ setup_error "no ticket" "dune_production" ∷ []

abbrev stored_before : Memory
stored_before = (
  ("dune_production", 1) ∷ [],
  ("dune_production", "node1", 1) ∷ ("dune_production", "node2", 2) ∷ [],
)

abbrev loaded_before : ServiceErrorCounts
loaded_before = record {
  setup_errors = fresh 1;
  push_errors = ("node1", fresh 1) ∷ ("node2", fresh 2) ∷ [];
}

abbrev stored_after : Memory
stored_after = (
  ("dune_production", 1) ∷ ("dune_production", 2) ∷ [],
  ("dune_production", "node1", 1)
      ∷ ("dune_production", "node2", 2)
      ∷ ("dune_production", "node1", 2)
      ∷ ("dune_production", "node2", 0)
      ∷ [],
)

abbrev loaded_after : ServiceErrorCounts
loaded_after = record {
  setup_errors = fresh 2;
  push_errors = ("node1", fresh 2) ∷ ("node2", fresh 0) ∷ [];
}

load_before :
    set_error_counts_by_service in_memory "dune_production" (some stored_before)
    ≡ some loaded_before
unfolding set_error_counts_by_service add_rows collect insert string_comparable
load_before = refl

save_after :
    save_error_counts_in_database in_memory "dune_production" stored_before
      (adjust_all 3 loaded_before two_errors).0
    ≡ (stored_after, true)
unfolding save_error_counts_in_database rows_to_store store_push store_setup adjust_all
    adjust_error_counts adjust_push adjust_setup insert lookup string_comparable
save_after = refl

load_after :
    set_error_counts_by_service in_memory "dune_production" (some stored_after) ≡ some loaded_after
unfolding set_error_counts_by_service add_rows collect insert string_comparable
load_after = refl

load-save_example :
    value_of (at_node "node2") loaded_after
    ≡ next_value 3 loaded_before two_errors (at_node "node2")
load-save_example =
    load-save in_memory stored_count Known in_memory-IsLawful "dune_production" 3 two_errors
      stored_before stored_after loaded_before loaded_after (at_node "node2") tt load_before
      save_after load_after

three-IsBelow : IsBelow 3 loaded_before
unfolding lookup
three-IsBelow setup = omega arith
three-IsBelow (at_node node) = ground arith

adjust_all-value_of_example :
    (value_of setup (adjust_all 3 loaded_before two_errors).0
        + count setup (adjust_all 3 loaded_before two_errors).1 * 3
      ≡ 2)
    × (value_of setup (adjust_all 3 loaded_before two_errors).0 < 3)
adjust_all-value_of_example =
    adjust_all-value_of setup 3 two_errors loaded_before (omega arith) three-IsBelow

abbrev a_manager : Bool → AdminNotificationManager
a_manager read_only = record {
  notification_minimum = 3;
  track_error_counts = true;
  database_read_only = read_only;
  all_service_counts = ("dune_production", loaded_before) ∷ [];
  admin_errors = [];
}

abbrev arrivals : List Arrival
arrivals =
    direct (setup_error "no ticket" "dune_production")
    ∷ direct (setup_error "no ticket" "mu2e_production")
    ∷ source (push_error "timeout" "dune_production" "node1")
    ∷ []

receive_all-alone_example :
    let (ec, sent) =
      alone "dune_production" 3 (counts_of "dune_production" (a_manager false)) arrivals in
    (counts_of "dune_production" (receive_all (a_manager false) arrivals) ≡ ec)
    × (on_account_of "dune_production" (receive_all (a_manager false) arrivals).admin_errors
        ≡ [] ++ sent)
receive_all-alone_example = receive_all-alone "dune_production" arrivals (a_manager false) refl

run_handler_returns_example :
    (ending_of in_memory (
        run_handler in_memory
          (a_manager false)
          stored_before
          (received_then arrivals (closed ∷ [])))
      ≡ some returned)
    ↔ AllSaved in_memory stored_before (receive_all (a_manager false) arrivals).all_service_counts
run_handler_returns_example =
    run_handler_returns in_memory (a_manager false) stored_before arrivals [] refl refl

read_only_run :
    run_handler in_memory (a_manager true) stored_before (closed ∷ [])
    ≡ some (a_manager true, stored_before, returned)
unfolding run_handler
read_only_run = refl

run_handler_read_only_example : (stored_before ≡ stored_before) × (returned ≡ returned)
run_handler_read_only_example =
    run_handler_read_only in_memory (closed ∷ []) (a_manager true) (a_manager true) stored_before
      stored_before returned refl read_only_run

adjust_all_at_one_example :
    count (at_node "node1") two_errors
    ≡ count (at_node "node1") (adjust_all 1 loaded_before two_errors).1
      + (if is_known (at_node "node1") loaded_before
          then 0
          else one_if_any (count (at_node "node1") two_errors))
adjust_all_at_one_example =
    adjust_all_at_one (at_node "node1") 1 two_errors loaded_before (omega arith)
