-- ===== src/Notifications/AdminManager/Separation.antt =====
-- The manager keeps the counts of each service as if that service were alone.
use managed_tokens.Base.{ℕ, ◌≡◌, refl, ◌∙◌, String, Bool, true, false, arith, ap}
use managed_tokens.Base.{List, [], ◌∷◌, ◌++◌, if◌then◌else◌, ◌==◌}
use managed_tokens.Base.{string_comparable}
use managed_tokens.Base.Dict.{lookup, lookup-insert}
use managed_tokens.Base.Lists.{filter, filter-append}
use managed_tokens.Notifications.{Notification, get_service}
use managed_tokens.Notifications.ErrorCounts.{ServiceErrorCounts, adjust_error_counts}
use managed_tokens.Notifications.AdminManager.{
  Arrival, direct, source, AdminNotificationManager, counts_or_new, receive,
}
use mathlib.Core.Path.{ap₂}
use mathlib.Core.List.{append-nil, append_assoc}

-- What an arrival does to the counts of a service, and whether it goes to the administrators on
-- its account.
abbrev pub judged : String → ℕ → ServiceErrorCounts → Arrival → ServiceErrorCounts × Bool
judged service minimum ec (direct n) =
    if service == get_service n then adjust_error_counts n ec minimum else (ec, false)
judged service minimum ec (source n) = (ec, service == get_service n)

abbrev pub arrived : Arrival → Notification
arrived (direct n) = n
arrived (source n) = n

-- One service alone: the counts it has, and what goes to the administrators on its account.
unfoldable pub alone :
    String → ℕ → ServiceErrorCounts → List Arrival → ServiceErrorCounts × List Notification
alone service minimum ec [] = (ec, [])
alone service minimum ec (x ∷ arrivals) =
    let (ec', send) = judged service minimum ec x in
    let (last, sent) = alone service minimum ec' arrivals in
    (last, (if send then arrived x ∷ [] else []) ++ sent)

unfoldable pub receive_all : AdminNotificationManager → List Arrival → AdminNotificationManager
receive_all a [] = a
receive_all a (x ∷ arrivals) = receive_all (receive a x) arrivals

abbrev pub counts_of : String → AdminNotificationManager → ServiceErrorCounts
counts_of service a = counts_or_new (lookup a.all_service_counts service)

abbrev pub on_account_of : String → List Notification → List Notification
on_account_of service = filter (λ n. service == get_service n)

admin_errors-receive :
    (a : AdminNotificationManager) (n : Notification)
    → a.track_error_counts ≡ true
    → let send = (adjust_error_counts n (counts_of (get_service n) a) a.notification_minimum).1 in
      (receive a (direct n)).admin_errors
      ≡ (if send then a.admin_errors ++ (n ∷ []) else a.admin_errors)
unfolding receive
admin_errors-receive a n h = grind (arith, lookup-insert)

fields-receive :
    (a : AdminNotificationManager) (x : Arrival)
    → ((receive a x).track_error_counts ≡ a.track_error_counts)
      × ((receive a x).notification_minimum ≡ a.notification_minimum)
unfolding receive
fields-receive a (direct n) = ground arith
fields-receive a (source n) = ground arith

module _ (service : String) where
  counts_of-receive :
      (a : AdminNotificationManager) (x : Arrival)
      → a.track_error_counts ≡ true
      → counts_of service (receive a x)
        ≡ (judged service a.notification_minimum (counts_of service a) x).0
  unfolding receive
  counts_of-receive a (direct n) h = grind (arith, lookup-insert)
  counts_of-receive a (source n) h = refl

  on_account_of-receive :
      (a : AdminNotificationManager) (x : Arrival)
      → a.track_error_counts ≡ true
      → on_account_of service (receive a x).admin_errors
        ≡ on_account_of service a.admin_errors
          ++ (if (judged service a.notification_minimum (counts_of service a) x).1
              then arrived x ∷ []
              else [])
  on_account_of-receive a (direct n) h = ground (
    arith,
    admin_errors-receive a n h,
    filter-append (λ (x : Notification). service == get_service x) a.admin_errors (n ∷ []),
    append-nil (on_account_of service a.admin_errors),
  )
  on_account_of-receive a (source n) h =
      unfold receive in filter-append (λ x. service == get_service x) a.admin_errors (n ∷ [])

  -- For every service, whatever the other services send: its counts, and what goes to the
  -- administrators on its account, are those of the service alone. This is where counts are tracked.
  pub receive_all-alone :
      (arrivals : List Arrival) (a : AdminNotificationManager)
      → a.track_error_counts ≡ true
      → let (ec, sent) = alone service a.notification_minimum (counts_of service a) arrivals in
        (counts_of service (receive_all a arrivals) ≡ ec)
        × (on_account_of service (receive_all a arrivals).admin_errors
            ≡ on_account_of service a.admin_errors ++ sent)
  unfolding receive_all alone
  receive_all-alone [] a h = (refl, rw append-nil)
  receive_all-alone (x ∷ arrivals) a h =
      let (tracked, minimum) = fields-receive a x in
      let rest = receive_all-alone arrivals (receive a x) (tracked ∙ h) in
      let same = ap₂ (λ m c. alone service m c arrivals) minimum (counts_of-receive a x h) in
      (
        rest.0 ∙ ap (λ p. p.0) same,
        rest.1 ∙ ap₂ ◌++◌ (on_account_of-receive a x h) (ap (λ p. p.1) same) ∙ (rw append_assoc),
      )
