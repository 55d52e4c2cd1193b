-- ===== src/Notifications/Admin/Delivery.antt =====
-- Who is told, and what it takes for the sending to be called a success.
use managed_tokens.Base.{◌≡◌, refl, ◌↔◌, String, Bool, true, false, arith, Option, none, some}
use managed_tokens.Base.{List, [], ◌∷◌}
use managed_tokens.Base.{Bool-cases, inl, inr}
use managed_tokens.Base.Lists.{All}
use mathlib.Core.List.{cons≢nil}
use managed_tokens.Base.Dict.{Dict}
use managed_tokens.Notifications.{Notification}
use managed_tokens.Notifications.AdminErrors.{
  or_made, add_all, admin_errors_is_empty, admin_errors_to_admin_data_unsync,
}
use managed_tokens.Notifications.AdminErrors.Emptiness.{admin_errors_is_empty_iff}
use managed_tokens.Notifications.Admin.{
  SendMessager, email, slack_message, other, TemplateArgs, send_each,
  prepare_full_and_abridged_messages, send_slack_no_error_test_messages, send_admin_notifications,
}

module _ (send : SendMessager → String → Bool) where
  -- The messager has a message and takes it.
  abbrev pub Delivered : String × String → SendMessager → Type 0
  Delivered (full_message, _) (email x) = send (email x) full_message ≡ true
  Delivered (_, short_message) (slack_message x) = send (slack_message x) short_message ≡ true
  Delivered _ (other _) = ⊥

  -- The messagers that are supported, each with its message.
  abbrev pub addressed : String × String → List SendMessager → List (SendMessager × String)
  addressed m [] = []
  addressed m (email x ∷ sms) = (email x, m.0) ∷ addressed m sms
  addressed m (slack_message x ∷ sms) = (slack_message x, m.1) ∷ addressed m sms
  addressed m (other _ ∷ sms) = addressed m sms

  attempts-send_each :
      (m : String × String) (sms : List SendMessager)
      → (send_each send m sms).attempts ≡ addressed m sms
  unfolding send_each
  attempts-send_each m [] = refl
  attempts-send_each m (email x ∷ sms) = ground (arith, attempts-send_each m sms)
  attempts-send_each m (slack_message x ∷ sms) = ground (arith, attempts-send_each m sms)
  attempts-send_each m (other x ∷ sms) = attempts-send_each m sms

  success-send_each :
      (m : String × String) (sms : List SendMessager)
      → ((send_each send m sms).success ≡ true) ↔ All (Delivered m) sms
  unfolding send_each
  success-send_each m [] = (λ _. tt, λ _. refl)
  success-send_each m (email x ∷ sms) = ground (arith, success-send_each m sms)
  success-send_each m (slack_message x ∷ sms) = ground (arith, success-send_each m sms)
  success-send_each m (other x ∷ sms) = ground (arith, success-send_each m sms)

abbrev pub OnlySlack : SendMessager × String → Type 0
OnlySlack (email _, _) = ⊥
OnlySlack (slack_message _, text) = text ≡ "Test run completed successfully"
OnlySlack (other _, _) = ⊥

module _ (send : SendMessager → String → Bool) where
  abbrev pub Told : SendMessager → Type 0
  Told (email _) = Unit
  Told (slack_message x) = send (slack_message x) "Test run completed successfully" ≡ true
  Told (other _) = Unit

  success-send_slack :
      (sms : List SendMessager)
      → ((send_slack_no_error_test_messages send sms).success ≡ true) ↔ All Told sms
  unfolding send_slack_no_error_test_messages
  success-send_slack [] = (λ _. tt, λ _. refl)
  success-send_slack (email x ∷ sms) = ground (arith, success-send_slack sms)
  success-send_slack (slack_message x ∷ sms) = ground (arith, success-send_slack sms)
  success-send_slack (other x ∷ sms) = ground (arith, success-send_slack sms)

  attempts-send_slack :
      (sms : List SendMessager)
      → All OnlySlack (send_slack_no_error_test_messages send sms).attempts
  unfolding send_slack_no_error_test_messages
  attempts-send_slack [] = tt
  attempts-send_slack (email x ∷ sms) = attempts-send_slack sms
  attempts-send_slack (slack_message x ∷ sms) = ground (arith, attempts-send_slack sms)
  attempts-send_slack (other x ∷ sms) = attempts-send_slack sms

module _ (send : SendMessager → String → Bool) (table : Dict String String → List String → String)
    (execute : TemplateArgs → Option String) where
  -- With errors to report and messages that can be prepared, every e-mail and every Slack messager
  -- is tried, in whatever state the others are; the result is a success exactly when all messagers
  -- are supported and all of them delivered.
  pub send_admin_notifications_errors :
      (n : Notification) (ns : List Notification) (operation : String) (is_test : Bool)
      (sms : List SendMessager) (messages : String × String)
      → let e = add_all none (n ∷ ns) in
        prepare_full_and_abridged_messages table execute operation
            (admin_errors_to_admin_data_unsync (or_made e))
          ≡ some messages
        → let sent = send_admin_notifications send table execute e operation is_test sms in
          (sent.attempts ≡ addressed send messages sms)
          × ((sent.success ≡ true) ↔ All (Delivered send messages) sms)
  unfolding send_admin_notifications
  send_admin_notifications_errors n ns operation is_test sms messages h =
      elim (Bool-cases (admin_errors_is_empty (add_all none (n ∷ ns)))) [
        | inl empty ↦ absurd (cons≢nil ((admin_errors_is_empty_iff (n ∷ ns)).0 empty))
        | inr full ↦
            rw (full, h) (attempts-send_each send messages sms, success-send_each send messages sms)
      ]

  -- Without errors nothing is sent outside a test and that is a success; in a test only Slack
  -- messagers are tried, and it is a success exactly when all of them took the message.
  pub send_admin_notifications_no_errors :
      (operation : String) (sms : List SendMessager)
      → let sent = send_admin_notifications send table execute none operation in
        ((sent false sms).attempts ≡ [])
        × ((sent false sms).success ≡ true)
        × (((sent true sms).success ≡ true) ↔ All (Told send) sms)
        × All OnlySlack (sent true sms).attempts
  unfolding send_admin_notifications admin_errors_is_empty
  send_admin_notifications_no_errors operation sms =
      (refl, refl, success-send_slack send sms, attempts-send_slack send sms)
