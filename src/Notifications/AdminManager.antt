-- ===== src/Notifications/AdminManager.antt =====
-- internal/notifications/adminNotificationManager.go: the set-up of the manager and the goroutine
-- that handles the notifications for the administrators.
pub mod Separation
pub mod Saving
use managed_tokens.Base.{ℕ, String, Bool, true, false, not, ◌&&◌, Option, none, some, List, [], ◌∷◌}
use managed_tokens.Base.{◌++◌, if◌then◌else◌, string_comparable}
use managed_tokens.Base.Dict.{Dict, lookup, insert}
use managed_tokens.Notifications.{Notification, get_service}
use managed_tokens.Notifications.ErrorCounts.{ServiceErrorCounts, adjust_error_counts}
use managed_tokens.Notifications.ErrorCounts.Store.{
  CountStore, Reply, rows, no_rows, failed, fresh, set_error_counts_by_service,
  save_error_counts_in_database,
}

-- A notification as it comes through `receiveChan`: direct, or a `SourceNotification` from the
-- manager of a service, which has counted it already.
pub data Arrival : Type 0 where
  direct : Notification → Arrival
  source : Notification → Arrival

-- What the `select` takes: a notification, the closing of `receiveChan`, or the end of the context.
pub data Event : Type 0 where
  received : Arrival → Event
  closed : Event
  done : Event

pub record AdminNotificationManager : Type 0 where
  pub notification_minimum : ℕ
  pub track_error_counts : Bool
  pub database_read_only : Bool
  pub all_service_counts : Dict String ServiceErrorCounts
  -- what went to `adminErrorChan`, in order
  pub admin_errors : List Notification

abbrev pub no_counts : ServiceErrorCounts
no_counts = record { setup_errors = fresh 0; push_errors = [] }

abbrev pub counts_or_new : Option ServiceErrorCounts → ServiceErrorCounts
counts_or_new none = no_counts
counts_or_new (some ec) = ec

-- verifyServiceErrorCounts: the map, with an entry for the service.
unfoldable pub verify_service_error_counts :
    Dict String ServiceErrorCounts → String → Dict String ServiceErrorCounts
verify_service_error_counts m service = elim (lookup m service) [
  | none ↦ insert m service no_counts
  | some _ ↦ m
]

-- The case of the `select` for a notification. The counts of the service are adjusted through the
-- pointer in the map.
unfoldable pub receive_direct : AdminNotificationManager → Notification → AdminNotificationManager
unfolding verify_service_error_counts
receive_direct a n =
    let m = verify_service_error_counts a.all_service_counts (get_service n) in
    let ec = counts_or_new (lookup m (get_service n)) in
    let (ec', should_send) = adjust_error_counts n ec a.notification_minimum in
    record a {
      all_service_counts = insert m (get_service n) ec';
      admin_errors = if should_send then a.admin_errors ++ (n ∷ []) else a.admin_errors;
    }

abbrev pub forward : AdminNotificationManager → Notification → AdminNotificationManager
forward a n = record a { admin_errors = a.admin_errors ++ (n ∷ []) }

unfoldable pub receive : AdminNotificationManager → Arrival → AdminNotificationManager
unfolding receive_direct
receive a (direct n) = if a.track_error_counts then receive_direct a n else forward a n
receive a (source n) = forward a n

-- How the goroutine ends. In the handler of a failed save, `n` is what the closed channel gave, a
-- nil `Notification`, and `n.GetService()` is a nil dereference.
pub data Ending : Type 0 where
  returned : Ending
  panicked : Ending

module _ (D : CountStore) where
  -- The loop that saves the counts of every service.
  unfoldable pub save_all : D.State → Dict String ServiceErrorCounts → D.State × Ending
  save_all s [] = (s, returned)
  save_all s ((service, ec) ∷ more) =
      let (s', saved) = save_error_counts_in_database D service s ec in
      let rest = save_all s' more in if saved then rest else (s', panicked)

  -- runAdminNotificationHandler, with the manager, the database and the ending; `none` while the
  -- goroutine still waits.
  unfoldable pub run_handler :
      AdminNotificationManager
      → D.State
      → List Event
      → Option (AdminNotificationManager × D.State × Ending)
  run_handler a s [] = none
  run_handler a s (done ∷ _) = some (a, s, returned)
  run_handler a s (closed ∷ _) =
      let (s', ending) =
        if a.track_error_counts && not a.database_read_only
        then save_all s a.all_service_counts
        else (s, returned) in
      some (a, s', ending)
  run_handler a s (received n ∷ events) = run_handler (receive a n) s events

  -- determineIfShouldTrackErrorCounts, where `all_services` is the reply of `GetAllServices`.
  unfoldable pub determine_if_should_track :
      Bool → Option D.State → (D.State → Reply (List String)) → Bool × List String
  determine_if_should_track false database all_services = (false, [])
  determine_if_should_track true none all_services = (false, [])
  determine_if_should_track true (some s) all_services = elim (all_services s) [
    | rows [] ↦ (false, [])
    | rows (service ∷ services) ↦ (true, service ∷ services)
    | no_rows ↦ (false, [])
    | failed ↦ (false, [])
  ]

  -- getAllErrorCountsFromDatabase: the first error makes the whole result invalid.
  unfoldable pub get_all_error_counts :
      List String
      → Option D.State
      → Dict String ServiceErrorCounts
      → Option (Dict String ServiceErrorCounts)
  get_all_error_counts [] database m = some m
  get_all_error_counts (service ∷ services) database m =
      elim (set_error_counts_by_service D service database) [
        | none ↦ none
        | some ec ↦ get_all_error_counts services database (insert m service ec)
      ]

  -- The part of NewAdminNotificationManager that follows the options.
  unfoldable pub set_up :
      AdminNotificationManager
      → Option D.State
      → (D.State → Reply (List String))
      → AdminNotificationManager
  unfolding determine_if_should_track
  set_up a database all_services =
      let (should_track, services) =
        determine_if_should_track a.track_error_counts database all_services in
      if should_track
      then elim (get_all_error_counts services database []) [
        | none ↦ record a { all_service_counts = []; track_error_counts = false }
        | some m ↦ record a { all_service_counts = m; track_error_counts = true }
      ]
      else record a { all_service_counts = []; track_error_counts = false }
