-- ===== src/Notifications/AdminErrors.antt =====
-- internal/notifications/adminErrors.go: the errors of all services, kept for the administrators.
pub mod Adding
pub mod Report
pub mod Emptiness
use managed_tokens.Base.{
  ℕ, zero, suc, String, Bool, true, false, ◌&&◌, Option, none, some, List, [],
}
use managed_tokens.Base.{◌∷◌, ◌++◌, if◌then◌else◌, ◌==◌, string_comparable}
use managed_tokens.Base.Dict.{Dict, lookup, insert}
use managed_tokens.Base.Lists.{length}
use managed_tokens.Notifications.{Notification, setup_error, push_error}

-- adminData, and adminDataUnsync, which has the same fields.
pub record AdminData : Type 0 where
  pub setup_errors : List String
  pub push_errors : Dict String String

-- The map behind `adminErrors.errorsMap`; `none` is the nil map.
abbrev pub ErrorsMap : Type 0
ErrorsMap = Option (Dict String AdminData)

abbrev pub or_made : ErrorsMap → Dict String AdminData
or_made none = []
or_made (some m) = m

-- What LoadOrStore and the update behind the pointer leave at the service of a `*setupError`.
abbrev pub with_setup_error : String → Option AdminData → AdminData
with_setup_error message none = record { setup_errors = message ∷ []; push_errors = [] }
with_setup_error message (some d) = record d { setup_errors = d.setup_errors ++ (message ∷ []) }

-- The same for a `*pushError`.
abbrev pub with_push_error : String → String → Option AdminData → AdminData
with_push_error node message none = record {
  setup_errors = [];
  push_errors = insert [] node message;
}
with_push_error node message (some d) = record d { push_errors = insert d.push_errors node message }

-- addErrorToAdminErrors
unfoldable pub add_error_to_admin_errors : ErrorsMap → Notification → ErrorsMap
add_error_to_admin_errors e (setup_error message service) =
    let m = or_made e in some (insert m service (with_setup_error message (lookup m service)))
add_error_to_admin_errors e (push_error message service node) =
    let m = or_made e in some (insert m service (with_push_error node message (lookup m service)))

-- syncMapLength, of a pointer that may be nil.
abbrev pub sync_map_length {ℓ} : {V : Type ℓ} → Option (Dict String V) → ℕ
sync_map_length none = 0
sync_map_length (some m) = length m

abbrev is_zero : ℕ → Bool
is_zero zero = true
is_zero (suc _) = false

-- adminData.isEmpty
unfoldable pub is_empty : AdminData → Bool
is_empty a = is_zero (length a.setup_errors) && is_zero (sync_map_length (some a.push_errors))

-- adminErrorsIsEmpty
unfoldable pub admin_errors_is_empty : ErrorsMap → Bool
admin_errors_is_empty e = is_zero (sync_map_length e)

-- The inner loop of adminErrorsToAdminDataUnsync: empty messages are left out.
unfoldable pub copy_push_errors : Dict String String → Dict String String
copy_push_errors [] = []
copy_push_errors ((node, e) ∷ m) =
    let rest = copy_push_errors m in if e == "" then rest else insert rest node e

abbrev pub unsync : AdminData → AdminData
unsync a = record { setup_errors = a.setup_errors; push_errors = copy_push_errors a.push_errors }

-- adminErrorsToAdminDataUnsync: the entries that are not empty, copied. Its two loops run over maps,
-- so their order is open; here the last key goes in first.
unfoldable pub admin_errors_to_admin_data_unsync : Dict String AdminData → Dict String AdminData
admin_errors_to_admin_data_unsync [] = []
admin_errors_to_admin_data_unsync ((service, a) ∷ m) =
    let rest = admin_errors_to_admin_data_unsync m in
    if is_empty a then rest else insert rest service (unsync a)

-- The adder started by startAdminErrorAdder: one call for each notification on its channel.
unfoldable pub add_all : ErrorsMap → List Notification → ErrorsMap
add_all e [] = e
add_all e (n ∷ ns) = add_all (add_error_to_admin_errors e n) ns
