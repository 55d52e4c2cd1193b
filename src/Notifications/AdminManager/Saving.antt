-- ===== src/Notifications/AdminManager/Saving.antt =====
-- How the goroutine of the manager ends, with the counts that it saves.
use managed_tokens.Base.{◌≡◌, refl, ◌∙◌, ◌↔◌, String, true, false, arith}
use managed_tokens.Base.{Option, none, some, List, [], ◌∷◌}
use managed_tokens.Base.Dict.{Dict}
use managed_tokens.Notifications.ErrorCounts.{ServiceErrorCounts}
use managed_tokens.Notifications.ErrorCounts.Store.{CountStore, save_error_counts_in_database}
use managed_tokens.Notifications.AdminManager.{
  Arrival, direct, source, receive, Event, received, closed, done, AdminNotificationManager, Ending,
  returned, save_all, run_handler,
}
use managed_tokens.Notifications.AdminManager.Separation.{receive_all}

unfoldable pub received_then : List Arrival → List Event → List Event
received_then [] rest = rest
received_then (x ∷ arrivals) rest = received x ∷ received_then arrivals rest

module _ (D : CountStore) where
  -- Every save succeeds, each from the state that the one before it left.
  abbrev pub AllSaved : D.State → Dict String ServiceErrorCounts → Type 0
  AllSaved s [] = Unit
  AllSaved s ((service, ec) ∷ more) =
      ((save_error_counts_in_database D service s ec).1 ≡ true)
      × AllSaved (save_error_counts_in_database D service s ec).0 more

  save_all_iff :
      (m : Dict String ServiceErrorCounts) (s : D.State)
      → ((save_all D s m).1 ≡ returned) ↔ AllSaved s m
  unfolding save_all
  save_all_iff [] s = (λ _. tt, λ _. refl)
  save_all_iff ((service, ec) ∷ more) s =
      ground (arith, save_all_iff more (save_error_counts_in_database D service s ec).0)

  run_handler-received :
      (arrivals : List Arrival) (a : AdminNotificationManager) (s : D.State) (rest : List Event)
      → run_handler D a s (received_then arrivals rest)
        ≡ run_handler D (receive_all a arrivals) s rest
  unfolding run_handler receive_all received_then
  run_handler-received [] a s rest = refl
  run_handler-received (x ∷ arrivals) a s rest = run_handler-received arrivals (receive a x) s rest

  keeps-receive :
      (a : AdminNotificationManager) (x : Arrival)
      → ((receive a x).database_read_only ≡ a.database_read_only)
        × ((receive a x).track_error_counts ≡ a.track_error_counts)
  unfolding receive
  keeps-receive a (direct n) = ground arith
  keeps-receive a (source n) = ground arith

  keeps-receive_all :
      (arrivals : List Arrival) (a : AdminNotificationManager)
      → ((receive_all a arrivals).database_read_only ≡ a.database_read_only)
        × ((receive_all a arrivals).track_error_counts ≡ a.track_error_counts)
  unfolding receive_all
  keeps-receive_all [] a = (refl, refl)
  keeps-receive_all (x ∷ arrivals) a =
      let (ro, tracked) = keeps-receive_all arrivals (receive a x) in
      (ro ∙ (keeps-receive a x).0, tracked ∙ (keeps-receive a x).1)

  abbrev pub ending_of : Option (AdminNotificationManager × D.State × Ending) → Option Ending
  ending_of none = none
  ending_of (some (_, _, ending)) = some ending

  -- When its channel is closed, a manager that tracks counts in a writable database returns exactly
  -- when every save succeeds.
  pub run_handler_returns :
      (a : AdminNotificationManager) (s : D.State) (arrivals : List Arrival) (rest : List Event)
      → a.track_error_counts ≡ true
      → a.database_read_only ≡ false
      → (ending_of (run_handler D a s (received_then arrivals (closed ∷ rest))) ≡ some returned)
        ↔ AllSaved s (receive_all a arrivals).all_service_counts
  unfolding run_handler
  run_handler_returns a s arrivals rest tracked writable =
      let (ro, track) = keeps-receive_all arrivals a in
      rw (run_handler-received arrivals a s (closed ∷ rest)) (
        ground (
          arith,
          ro ∙ writable,
          track ∙ tracked,
          save_all_iff (receive_all a arrivals).all_service_counts s,
        ))

  -- A manager with a read-only database, whatever it receives, leaves the database alone and does
  -- not panic.
  pub run_handler_read_only :
      (events : List Event) (a a' : AdminNotificationManager) (s s' : D.State) (ending : Ending)
      → a.database_read_only ≡ true
      → run_handler D a s events ≡ some (a', s', ending)
      → (s' ≡ s) × (ending ≡ returned)
  unfolding run_handler
  run_handler_read_only [] a a' s s' ending ro h = cc
  run_handler_read_only (done ∷ events) a a' s s' ending ro h = ground arith
  run_handler_read_only (closed ∷ events) a a' s s' ending ro h = ground arith
  run_handler_read_only (received x ∷ events) a a' s s' ending ro h =
      run_handler_read_only events (receive a x) a' s s' ending ((keeps-receive a x).0 ∙ ro) h
