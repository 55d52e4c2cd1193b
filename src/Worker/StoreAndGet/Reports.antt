-- ===== src/Worker/StoreAndGet/Reports.antt =====
-- What the worker reports of a service.
use managed_tokens.Base.{
  ◌≡◌, refl, String, Bool, true, false, ◌&&◌, Option, none, some, List, [], ◌∷◌,
}
use managed_tokens.Base.{◌++◌, if◌then◌else◌, is_none, arith, ◌∙◌}
use managed_tokens.Notifications.{new_setup_error}
use managed_tokens.Worker.StoreAndGet.{
  Failure, to_report, Progress, end_schedd, end_schedds, with_reports, store_service,
}
use mathlib.Core.List.{append-nil, append_assoc}

abbrev pub all_stored : List (String × Option Failure) → Bool
all_stored [] = true
all_stored ((_, e) ∷ rs) = is_none e && all_stored rs

-- What is to be reported of the credds, in their order.
abbrev pub reports_of : List (String × Option Failure) → List String
reports_of [] = []
reports_of ((schedd, e) ∷ rs) = to_report schedd e ++ reports_of rs

end_schedds-reports :
    (rs : List (String × Option Failure)) (p : Progress)
    → ((end_schedds p rs).success ≡ (p.success && all_stored rs))
      × ((end_schedds p rs).errs_to_report ≡ p.errs_to_report ++ reports_of rs)
unfolding end_schedds end_schedd
end_schedds-reports [] p = (ground arith, rw append-nil refl)
end_schedds-reports ((schedd, none) ∷ rs) p = end_schedds-reports rs p
end_schedds-reports ((schedd, some e) ∷ rs) p =
    let (a, b) = end_schedds-reports rs (end_schedd p (schedd, some e)) in
    (ground arith, b ∙ rw append_assoc)

-- A service is a success exactly when the tokens of all its credds were stored, and then nothing is
-- sent; else one setup error is sent, with the errors to report of all credds in their order.
pub store_service_report :
    (service : String) (rs : List (String × Option Failure))
    → let text : String = with_reports "Could not store and get vault tokens" (reports_of rs) in
      store_service service rs
      ≡ (if all_stored rs then (true, []) else (false, new_setup_error text service ∷ []))
unfolding store_service
store_service_report service rs =
    let (a, b) = end_schedds-reports rs (record { success = true; errs_to_report = [] }) in
    rw (a, b) refl
