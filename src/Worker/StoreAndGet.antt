-- ===== src/Worker/StoreAndGet.antt =====
-- internal/worker/condorVaultStorerWorker.go: storing a vault token on a credd and getting it, for
-- one credd and for the configuration of one service.
pub mod Tokens
pub mod Reports
use managed_tokens.Base.{
  String, ◌<>◌, Bool, true, false, not, ◌&&◌, Option, none, some, List, [], ◌∷◌,
}
use managed_tokens.Base.{◌++◌, if◌then◌else◌}
use managed_tokens.Notifications.{Notification, new_setup_error}
use managed_tokens.Worker.PushToNode.{ContextError}
use managed_tokens.Worker.CreddStore.{
  Files, Restore, BackupCalls, StageCalls, StoreCalls, RestoreCalls, StageError,
  no_service_credd_token, move_service_credd_token, remove_failed, backup_condor_vault_token,
  stage_stored_token_file, store_service_token_for_credd_file, restore_prior_token,
}

-- What the calls of storeAndGetTokensForSchedd meet; `before` and `between` are the two looks at the
-- context.
pub record Calls : Type 0 where
  pub before : Option ContextError
  pub backup : BackupCalls
  pub stage : StageCalls
  pub between : Option ContextError
  pub store : StoreCalls
  pub restore : RestoreCalls

-- The error of storeAndGetTokensForSchedd: that of the context, or that of GetAndStoreToken.
pub data ScheddError : Type 0 where
  context_ended : ContextError → ScheddError
  not_stored : ScheddError

-- The variable `success` after the staging.
abbrev pub may_store : Option StageError → Bool
may_store none = true
may_store (some no_service_credd_token) = true
may_store (some move_service_credd_token) = true
may_store (some remove_failed) = false

-- `get_and_store` is GetAndStoreToken of the TokenStorerAndGetter, with the files that it leaves and
-- whether there was no error.
module _ (get_and_store : Files → Files × Bool) where
  -- From the staging on. The deferred calls run in the reverse of their order: the new token is
  -- stored for the credd, and then the prior token is restored.
  abbrev pub stage_and_store :
      Calls → Files → String → String → Restore → Files × Option ScheddError
  stage_and_store calls files location stored prior =
      let (staged, e) = stage_stored_token_file calls.stage files location stored in
      let (gotten, ok) = get_and_store staged in
      let kept =
        if may_store e
        then (store_service_token_for_credd_file calls.store gotten location stored).0
        else gotten in
      elim calls.between [
        | some ended ↦ (
          (restore_prior_token calls.restore staged location prior).0,
          some (context_ended ended),
        )
        | none ↦ (
          (restore_prior_token calls.restore kept location prior).0,
          if ok then none else some not_stored,
        )
      ]

  -- storeAndGetTokensForSchedd, where `location` is the place of HTCondor and `stored` that of the
  -- credd. An error of the backup is only logged.
  unfoldable pub store_and_get_tokens_for_schedd :
      Calls → Files → String → String → Files × Option ScheddError
  unfolding backup_condor_vault_token stage_stored_token_file store_service_token_for_credd_file
      restore_prior_token
  store_and_get_tokens_for_schedd calls files location stored = elim calls.before [
    | some ended ↦ (files, some (context_ended ended))
    | none ↦
        let (backed_up, (prior, _)) = backup_condor_vault_token calls.backup files location in
        stage_and_store calls backed_up location stored prior
  ]

-- The error for one credd, as the worker tells them apart: the end of the context's time, that an
-- authorization is needed, or any other.
pub data Failure : Type 0 where
  timed_out : Failure
  auth_needed : String → Failure
  other_failure : Failure

-- What is added to `errsToReport` for a credd.
abbrev pub to_report : String → Option Failure → List String
to_report schedd none = []
to_report schedd (some timed_out) = (schedd <> ": timeout error") ∷ []
to_report schedd (some (auth_needed e)) = (schedd <> (": " <> e)) ∷ []
to_report schedd (some other_failure) = []

-- A service after some of its credds: `success`, and `errsToReport`.
pub record Progress : Type 0 where
  pub success : Bool
  pub errs_to_report : List String

-- The body of the loop over the credds.
unfoldable pub end_schedd : Progress → String × Option Failure → Progress
end_schedd p (schedd, none) = p
end_schedd p (schedd, some e) = record {
  success = false;
  errs_to_report = p.errs_to_report ++ to_report schedd (some e);
}

unfoldable pub end_schedds : Progress → List (String × Option Failure) → Progress
end_schedds p [] = p
end_schedds p (r ∷ rs) = end_schedds (end_schedd p r) rs

unfoldable pub with_reports : String → List String → String
with_reports msg [] = msg
with_reports msg (e ∷ es) = with_reports (msg <> ("; " <> e)) es

-- The report of a service, and its notifications.
unfoldable pub store_service : String → List (String × Option Failure) → Bool × List Notification
unfolding end_schedds with_reports
store_service service rs =
    let p = end_schedds (record { success = true; errs_to_report = [] }) rs in
    let text : String = with_reports "Could not store and get vault tokens" p.errs_to_report in
    if p.success then (true, []) else (false, new_setup_error text service ∷ [])
