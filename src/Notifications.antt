-- ===== src/Notifications.antt =====
-- internal/notifications/notifications.go: the two kinds of notification.
pub mod ErrorCounts
pub mod ServiceEmail
pub mod AdminManager
pub mod AdminErrors
pub mod Admin
use managed_tokens.Base.{String}

pub data Notification : Type 0 where
  setup_error : (message service : String) → Notification
  push_error : (message service node : String) → Notification

-- NewSetupError
abbrev pub new_setup_error : String → String → Notification
new_setup_error message service = setup_error message service

-- NewPushError
abbrev pub new_push_error : String → String → String → Notification
new_push_error message service node = push_error message service node

abbrev pub get_message : Notification → String
get_message (setup_error message service) = message
get_message (push_error message service node) = message

abbrev pub get_service : Notification → String
get_service (setup_error message service) = service
get_service (push_error message service node) = service
