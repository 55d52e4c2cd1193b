-- ===== src/Notifications/AdminErrors/Emptiness.antt =====
-- When there is something to tell the administrators.
use managed_tokens.Base.{◌≡◌, refl, sym, ◌∙◌, ◌↔◌, String, true, false, arith, none}
use managed_tokens.Base.{List, [], ◌∷◌, string_comparable}
use managed_tokens.Base.Dict.{Dict, insert}
use managed_tokens.Notifications.{Notification, setup_error, push_error}
use managed_tokens.Notifications.AdminErrors.{
  AdminData, ErrorsMap, or_made, add_error_to_admin_errors, is_zero, admin_errors_is_empty, add_all,
}
use managed_tokens.Base.Lists.{length}
use mathlib.Core.Bool.{false≢true}

length-insert_ne :
    (m : Dict String AdminData) (k : String) (a : AdminData)
    → is_zero (length (insert m k a)) ≡ false
unfolding insert
length-insert_ne [] k a = refl
length-insert_ne ((j, b) ∷ m) k a = ground arith

admin_errors_is_empty-add_error :
    (e : ErrorsMap) (n : Notification)
    → admin_errors_is_empty (add_error_to_admin_errors e n) ≡ false
unfolding admin_errors_is_empty add_error_to_admin_errors
admin_errors_is_empty-add_error e (setup_error m s) = length-insert_ne (or_made e) s _
admin_errors_is_empty-add_error e (push_error m s n) = length-insert_ne (or_made e) s _

admin_errors_is_empty-add_all :
    (ns : List Notification) (e : ErrorsMap)
    → admin_errors_is_empty e ≡ false
    → admin_errors_is_empty (add_all e ns) ≡ false
unfolding add_all
admin_errors_is_empty-add_all [] e h = h
admin_errors_is_empty-add_all (n ∷ ns) e h =
    admin_errors_is_empty-add_all ns _ (admin_errors_is_empty-add_error e n)

-- There is something to tell exactly when something was added.
pub admin_errors_is_empty_iff :
    (ns : List Notification) → (admin_errors_is_empty (add_all none ns) ≡ true) ↔ (ns ≡ [])
unfolding add_all admin_errors_is_empty
admin_errors_is_empty_iff [] = (λ _. refl, λ _. refl)
admin_errors_is_empty_iff (n ∷ ns) =
    let full = admin_errors_is_empty-add_all ns _ (admin_errors_is_empty-add_error none n) in
    (λ h. absurd (false≢true (sym full ∙ h)), λ h. cc)
