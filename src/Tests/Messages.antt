-- ===== src/Tests/Messages.antt =====
-- The messages to services and administrators, at concrete notifications.
use managed_tokens.Base.{◌≡◌, ◌↔◌, refl, String, Bool, true, false, Option, none, some}
use managed_tokens.Base.{List, [], ◌∷◌, ◌<>◌, string_comparable}
use managed_tokens.Base.Dict.{Dict, lookup, insert}
use managed_tokens.Base.Lists.{All}
use managed_tokens.Notifications.{Notification, setup_error, push_error}
use managed_tokens.Notifications.ErrorCounts.Store.{fresh}
use managed_tokens.Notifications.ServiceEmail.{
  ServiceEmailManager, closed, run_handler, send_service_email_if_errors, add_to_table,
}
use managed_tokens.Notifications.ServiceEmail.Forwarding.{
  sent_of, mail_of, last_message, or_else, table_of, settled, received_then, run_handler_closed,
}
use managed_tokens.Notifications.AdminErrors.{or_made, add_all, admin_errors_to_admin_data_unsync}
use managed_tokens.Notifications.AdminErrors.Adding.{setup_of, push_of}
use managed_tokens.Notifications.AdminErrors.Report.{reported}
use managed_tokens.Notifications.Admin.{
  SendMessager, email, slack_message, other, TemplateArgs, full, abridged, send_admin_notifications,
  prepare_full_and_abridged_messages,
}
use managed_tokens.Notifications.Admin.Delivery.{
  addressed, Delivered, Told, OnlySlack, send_admin_notifications_errors,
  send_admin_notifications_no_errors,
}

abbrev no_ticket : Notification
no_ticket = setup_error "no ticket" "dune_production"

abbrev timeout : Notification
timeout = push_error "timeout" "dune_production" "node1"

abbrev both : List Notification
both = no_ticket ∷ timeout ∷ []

abbrev from_table : Dict String String → Option String
from_table [] = none
from_table ((node, message) ∷ _) = some (node <> message)

abbrev email_manager : ServiceEmailManager
email_manager = record {
  notification_minimum = 1;
  track_error_counts = false;
  error_counts = record { setup_errors = fresh 0; push_errors = [] };
  admin_notifications = [];
  service_errors_table = [];
}

run_handler_closed_example :
    (run_handler from_table email_manager (received_then both (closed ∷ []))
      ≡ some (record {
        manager = settled email_manager (sent_of email_manager both);
        saved = none;
        email = mail_of from_table [] both;
      }))
    × (lookup (settled email_manager (sent_of email_manager both)).service_errors_table "node1"
        ≡ or_else (last_message "node1" both) none)
unfolding lookup
run_handler_closed_example = run_handler_closed from_table email_manager both [] "node1"

mailed : send_service_email_if_errors from_table (table_of [] both) ≡ some "node1timeout"
unfolding send_service_email_if_errors table_of add_to_table insert
mailed = refl

reported_example :
    let told =
      lookup (admin_errors_to_admin_data_unsync (or_made (add_all none both))) "dune_production" in
    (setup_of told ≡ "no ticket" ∷ []) × (push_of "node1" told ≡ some "timeout")
unfolding string_comparable
reported_example = reported both "dune_production" "node1"

abbrev delivers : SendMessager → String → Bool
delivers (email _) _ = true
delivers (slack_message _) _ = false
delivers (other _) _ = true

abbrev plain_table : Dict String String → List String → String
plain_table _ _ = "table"

abbrev by_kind : TemplateArgs → Option String
by_kind (full _ _) = some "full"
by_kind (abridged _ _ _) = some "abridged"

abbrev messagers : List SendMessager
messagers = email "admin" ∷ slack_message "channel" ∷ []

prepared :
    prepare_full_and_abridged_messages plain_table by_kind "token-push"
      (admin_errors_to_admin_data_unsync (or_made (add_all none both)))
    ≡ some ("full", "abridged")
unfolding prepare_full_and_abridged_messages
prepared = refl

send_admin_notifications_errors_example :
    let sent =
      send_admin_notifications delivers plain_table by_kind
        (add_all none both)
        "token-push"
        false
        messagers in
    (sent.attempts ≡ addressed delivers ("full", "abridged") messagers)
    × ((sent.success ≡ true) ↔ All (Delivered delivers ("full", "abridged")) messagers)
send_admin_notifications_errors_example =
    send_admin_notifications_errors delivers plain_table by_kind no_ticket (timeout ∷ [])
      "token-push" false messagers ("full", "abridged") prepared

send_admin_notifications_no_errors_example :
    let sent = send_admin_notifications delivers plain_table by_kind none "token-push" in
    ((sent false messagers).attempts ≡ [])
    × ((sent false messagers).success ≡ true)
    × (((sent true messagers).success ≡ true) ↔ All (Told delivers) messagers)
    × All OnlySlack (sent true messagers).attempts
send_admin_notifications_no_errors_example =
    send_admin_notifications_no_errors delivers plain_table by_kind "token-push" messagers
