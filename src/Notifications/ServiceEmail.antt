-- ===== src/Notifications/ServiceEmail.antt =====
-- internal/notifications/serviceEmailManager.go: the goroutine that handles the notifications of one
-- service, as a loop over what its `select` receives. Channels are the lists of what goes through.
pub mod Forwarding
use managed_tokens.Base.{ℕ, String, Bool, true, false, Option, none, some, List, [], ◌∷◌, ◌++◌}
use managed_tokens.Base.{if◌then◌else◌, string_comparable}
use managed_tokens.Base.Dict.{Dict, insert}
use managed_tokens.Notifications.{Notification, setup_error, push_error}
use managed_tokens.Notifications.ErrorCounts.{ServiceErrorCounts, adjust_error_counts}

-- What the `select` takes: a notification, the closing of `ReceiveChan`, or the end of the context.
pub data Event : Type 0 where
  received : Notification → Event
  closed : Event
  done : Event

pub record ServiceEmailManager : Type 0 where
  pub notification_minimum : ℕ
  pub track_error_counts : Bool
  pub error_counts : ServiceErrorCounts
  -- what went to `adminNotificationChan`, in order
  pub admin_notifications : List Notification
  pub service_errors_table : Dict String String

-- addPushErrorNotificationToServiceErrorsTable
unfoldable pub add_to_table : Notification → Dict String String → Dict String String
add_to_table (push_error message _ node) table = insert table node message
add_to_table (setup_error _ _) table = table

-- The counts after a notification, and whether to send it.
abbrev pub judge : ServiceEmailManager → Notification → ServiceErrorCounts × Bool
judge em n =
    if em.track_error_counts
    then adjust_error_counts n em.error_counts em.notification_minimum
    else (em.error_counts, true)

-- The case of the `select` for a notification.
unfoldable pub receive : ServiceEmailManager → Notification → ServiceEmailManager
receive em n =
    let (ec, should_send) = judge em n in
    if should_send
    then record em {
      error_counts = ec;
      service_errors_table = add_to_table n em.service_errors_table;
      admin_notifications = em.admin_notifications ++ (n ∷ []);
    }
    else record em { error_counts = ec }

-- How the goroutine ended: the counts given to the database, and the message given to the mailer.
pub record Outcome : Type 0 where
  pub manager : ServiceEmailManager
  pub saved : Option ServiceErrorCounts
  pub email : Option String

-- `prepare` makes the message from the table by the template; `none` is its error.
module _ (prepare : Dict String String → Option String) where
  -- sendServiceEmailIfErrors. A message that cannot be prepared is sent empty.
  unfoldable pub send_service_email_if_errors : Dict String String → Option String
  send_service_email_if_errors [] = none
  send_service_email_if_errors (e ∷ table) = elim (prepare (e ∷ table)) [
    | none ↦ some ""
    | some message ↦ some message
  ]

  -- runServiceNotificationHandler; `none` while the goroutine still waits.
  unfoldable pub run_handler : ServiceEmailManager → List Event → Option Outcome
  run_handler em [] = none
  run_handler em (done ∷ _) = some (record { manager = em; saved = none; email = none })
  run_handler em (closed ∷ _) = some (record {
    manager = em;
    saved = if em.track_error_counts then some em.error_counts else none;
    email = send_service_email_if_errors em.service_errors_table;
  })
  run_handler em (received n ∷ events) = run_handler (receive em n) events
