-- ===== src/Notifications/Admin.antt =====
-- internal/notifications/admin.go: the messages for the administrators and their sending. What is
-- not in the repository (the e-mail and Slack clients, the table writer, the templates) are
-- parameters.
pub mod Delivery
use managed_tokens.Base.{String, ◌<>◌, Bool, true, false, ◌&&◌, Option, none, some, List, [], ◌∷◌}
use managed_tokens.Base.{◌++◌, map, if◌then◌else◌}
use managed_tokens.Base.Dict.{Dict}
use managed_tokens.Notifications.AdminErrors.{
  AdminData, ErrorsMap, or_made, admin_errors_is_empty, admin_errors_to_admin_data_unsync,
}

-- The values behind `SendMessager`, by their dynamic type.
pub data SendMessager : Type 0 where
  email : String → SendMessager
  slack_message : String → SendMessager
  other : String → SendMessager

-- AdminDataFinal
pub record AdminDataFinal : Type 0 where
  pub setup_errors : List String
  pub push_errors_table : String

pub data TemplateArgs : Type 0 where
  full : String → Dict String AdminDataFinal → TemplateArgs
  abridged : String → List String → List String → TemplateArgs

-- A run of the errgroup, or of the loop: what was attempted, and whether all went well.
pub record Sent : Type 0 where
  pub attempts : List (SendMessager × String)
  pub success : Bool

abbrev help_message : String
help_message =
    "The following is a list of nodes on which all vault tokens were not refreshed, and the corresponding roles for those failed token refreshes:"

-- PrepareTableStringFromMap over the table writer.
unfoldable pub prepare_table_string_from_map :
    (Dict String String → List String → String) → Dict String String → String → List String → String
prepare_table_string_from_map table [] message header = ""
prepare_table_string_from_map table (e ∷ m) message header =
    message <> ("\n\n" <> table (e ∷ m) header)

-- prepareAdminErrorsForFullMessage
unfoldable pub prepare_admin_errors_for_full_message :
    (Dict String String → List String → String) → Dict String AdminData → Dict String AdminDataFinal
prepare_admin_errors_for_full_message table [] = []
prepare_admin_errors_for_full_message table ((service, a) ∷ m) =
    (
      service,
      record {
        setup_errors = a.setup_errors;
        push_errors_table =
            prepare_table_string_from_map table a.push_errors help_message ("Node" ∷ "Error" ∷ []);
      },
    )
    ∷ prepare_admin_errors_for_full_message table m

abbrev setup_line : String → String → String
setup_line service e = service <> (": " <> e)

abbrev push_line : String → (String × String) → String
push_line service (node, e) = service <> ("@" <> (node <> (": " <> e)))

-- prepareAbridgedAdminSlices
unfoldable pub prepare_abridged_admin_slices : Dict String AdminData → List String × List String
prepare_abridged_admin_slices [] = ([], [])
prepare_abridged_admin_slices ((service, a) ∷ m) =
    let (setups, pushes) = prepare_abridged_admin_slices m in
    (
      map (setup_line service) a.setup_errors ++ setups,
      map (push_line service) a.push_errors ++ pushes,
    )

-- What the `switch` picks for a messager; none for an unsupported one.
abbrev pub message_for : String × String → SendMessager → Option String
message_for (full_message, _) (email _) = some full_message
message_for (_, abridged_message) (slack_message _) = some abridged_message
message_for _ (other _) = none

module _ (send : SendMessager → String → Bool) where
  -- The loop of sendSlackNoErrorTestMessages over the Slack messagers: it stops at the first error.
  unfoldable pub send_slack_no_error_test_messages : List SendMessager → Sent
  send_slack_no_error_test_messages [] = record { attempts = []; success = true }
  send_slack_no_error_test_messages (email _ ∷ sms) = send_slack_no_error_test_messages sms
  send_slack_no_error_test_messages (other _ ∷ sms) = send_slack_no_error_test_messages sms
  send_slack_no_error_test_messages (slack_message x ∷ sms) =
      let text : String = "Test run completed successfully" in
      let rest = send_slack_no_error_test_messages sms in
      let here : SendMessager × String = (slack_message x, text) in
      if send (slack_message x) text
      then record { attempts = here ∷ rest.attempts; success = rest.success }
      else record { attempts = here ∷ []; success = false }

  -- The errgroup of SendAdminNotifications: every messager is tried, whatever happens to the others.
  unfoldable pub send_each : String × String → List SendMessager → Sent
  send_each messages [] = record { attempts = []; success = true }
  send_each messages (sm ∷ sms) =
      let rest = send_each messages sms in
      elim (message_for messages sm) [
        | none ↦ record { attempts = rest.attempts; success = false }
        | some m ↦ record {
          attempts = (sm, m) ∷ rest.attempts;
          success = send sm m && rest.success;
        }
      ]

module _ (table : Dict String String → List String → String)
    (execute : TemplateArgs → Option String) where
  -- prepareFullAndAbridgedMessages; `none` is an error of a template.
  unfoldable pub prepare_full_and_abridged_messages :
      String → Dict String AdminData → Option (String × String)
  prepare_full_and_abridged_messages operation errors =
      let (setups, pushes) = prepare_abridged_admin_slices errors in
      elim (execute (full operation (prepare_admin_errors_for_full_message table errors))) [
        | none ↦ none
        | some full_message ↦ elim (execute (abridged operation setups pushes)) [
          | none ↦ none
          | some abridged_message ↦ some (full_message, abridged_message)
        ]
      ]

module _ (send : SendMessager → String → Bool) (table : Dict String String → List String → String)
    (execute : TemplateArgs → Option String) where
  -- SendAdminNotifications, after the writers of the errors are done.
  unfoldable pub send_admin_notifications : ErrorsMap → String → Bool → List SendMessager → Sent
  send_admin_notifications e operation is_test sms =
      if admin_errors_is_empty e
      then if is_test
        then send_slack_no_error_test_messages send sms
        else record { attempts = []; success = true }
      else elim (prepare_full_and_abridged_messages table execute operation
          (admin_errors_to_admin_data_unsync (or_made e))) [
            | none ↦ record { attempts = []; success = false }
            | some messages ↦ send_each send messages sms
          ]
