-- ===== src/Tests/Tokens.antt =====
-- Vault tokens and their files, at concrete files.
use managed_tokens.Base.{◌≡◌, ◌≢◌, refl, String, Bool, true, false, Option, none, some, arith}
use managed_tokens.Base.{
  List, [], ◌∷◌, ◌==◌, string_comparable, if◌then◌else◌, ◌<>◌, Option-cases, inl, inr,
}
use managed_tokens.Base.Dict.{lookup, insert, erase, lookup-insert}
use managed_tokens.Notifications.{new_setup_error}
use managed_tokens.Worker.PushToNode.{deadline_exceeded}
use managed_tokens.Worker.CreddStore.{
  Files, MoveCalls, move_file_cross_device, contents, backup_condor_vault_token, back_up_to,
  stage_stored_token_file, remove,
}
use managed_tokens.Worker.CreddStore.Moves.{IsMoved, move_file_outcome, MoveWorks}
use managed_tokens.Worker.StoreAndGet.{
  Calls, context_ended, store_and_get_tokens_for_schedd, Failure, timed_out, auth_needed,
  with_reports, store_service,
}
use managed_tokens.Worker.StoreAndGet.Tokens.{
  CallsWork, given_files, prior_token_restored, staged_token_lost,
}
use managed_tokens.Worker.StoreAndGet.Reports.{store_service_report}
use managed_tokens.Worker.GetToken.{GetCalls, get_vault_token, TokenError, Job, get_token_worker}
use managed_tokens.Worker.GetToken.Storage.{GetWorks, Ended, vault_token_stored}
use managed_tokens.Worker.GetToken.Reports.{get_token_worker_stops}

apart : (a b : String) → a == b ≡ false → a ≢ b
apart a b h = ground arith

abbrev condor : String
condor = "/tmp/vt_u1000-dune"

abbrev stored : String
stored = "/var/vt_u1000-credd1-dune"

abbrev temp : String
temp = "/tmp/managed_tokens_1"

abbrev bearer : String
bearer = "/tmp/managed_tokens_2"

condor-stored : condor ≢ stored
unfolding string_comparable
condor-stored = apart condor stored refl

condor-temp : condor ≢ temp
unfolding string_comparable
condor-temp = apart condor temp refl

stored-temp : stored ≢ temp
unfolding string_comparable
stored-temp = apart stored temp refl

bearer-condor : bearer ≢ condor
unfolding string_comparable
bearer-condor = apart bearer condor refl

temp-condor : temp ≢ condor
unfolding string_comparable
temp-condor = apart temp condor refl

temp-stored : temp ≢ stored
unfolding string_comparable
temp-stored = apart temp stored refl

temp-bearer : temp ≢ bearer
unfolding string_comparable
temp-bearer = apart temp bearer refl

abbrev disk : Files
disk = (condor, "prior") ∷ (stored, "old") ∷ []

on_condor : lookup disk condor ≡ some "prior"
unfolding lookup string_comparable
on_condor = refl

on_stored : lookup disk stored ≡ some "old"
unfolding lookup string_comparable
on_stored = refl

abbrev good_move : MoveCalls
good_move = record { opens = true; creates = true; partial_copy = none; removes = true }

move_file_outcome_example :
    let (files', e) = move_file_cross_device good_move disk condor stored in
    IsMoved e "prior" (lookup files' condor) (lookup files' stored)
    × (lookup files' temp ≡ lookup disk temp)
move_file_outcome_example =
    move_file_outcome good_move disk condor stored "prior" temp condor-stored on_condor temp-condor
      temp-stored

abbrev good_calls : Calls
good_calls = record {
  before = none;
  backup = record { stats = true; temp = some temp; move = good_move; removes = true };
  stage = record { stats = true; move = good_move; removes = true };
  between = none;
  store = record { move = good_move; removes = true };
  restore = record {
    move_back = good_move;
    final_location = "/tmp/managed_tokens_vt_bak";
    move_away = good_move;
  };
}

-- A storer that renews the token that it finds.
abbrev storer : Files → Files × Bool
storer files = (insert files condor (contents (lookup files condor) <> "+"), true)

good_calls-CallsWork : CallsWork good_calls temp
good_calls-CallsWork =
    let works : MoveWorks good_move = (refl, refl, refl, refl) in
    (refl, refl, refl, works, refl, works, works, works)

abbrev given : Files
given = given_files good_calls disk condor stored

renewed : lookup (storer given).0 condor ≡ some "old+"
unfolding backup_condor_vault_token back_up_to stage_stored_token_file move_file_cross_device remove
    lookup insert erase string_comparable
renewed = refl

untouched : lookup (storer given).0 temp ≡ lookup given temp
untouched =
    ground
      (arith, lookup-insert given condor temp (contents (lookup given condor) <> "+"), temp-condor)

prior_token_restored_example :
    let (files', e) = store_and_get_tokens_for_schedd storer good_calls disk condor stored in
    (lookup given condor ≡ lookup disk stored)
    × (e ≡ none)
    × (lookup files' condor ≡ some "prior")
    × (lookup files' stored ≡ some "old+")
    × (lookup files' temp ≡ none)
prior_token_restored_example =
    prior_token_restored storer good_calls disk condor stored temp "prior" "old+" (storer given).0
      good_calls-CallsWork refl condor-stored condor-temp stored-temp on_condor refl renewed
      untouched

abbrev late_calls : Calls
late_calls = record good_calls { between = some deadline_exceeded }

late_calls-CallsWork : CallsWork late_calls temp
late_calls-CallsWork =
    let works : MoveWorks good_move = (refl, refl, refl, refl) in
    (refl, refl, refl, works, refl, works, works, works)

staged_token_lost_example :
    let (files', e) = store_and_get_tokens_for_schedd storer late_calls disk condor stored in
    (e ≡ some (context_ended deadline_exceeded))
    × (lookup files' condor ≡ some "prior")
    × (lookup files' stored ≡ none)
    × (lookup files' temp ≡ none)
staged_token_lost_example =
    staged_token_lost storer late_calls disk condor stored temp "prior" "old" deadline_exceeded
      late_calls-CallsWork refl condor-stored condor-temp stored-temp on_condor on_stored

abbrev schedds : List (String × Option Failure)
schedds =
    ("credd1", none) ∷ ("credd2", some timed_out) ∷ ("credd3", some (auth_needed "login")) ∷ []

store_service_report_example : store_service "dune_production" schedds ≡ (
  false,
  new_setup_error "Could not store and get vault tokens; credd2: timeout error; credd3: login"
        "dune_production"
      ∷ [],
)
unfolding with_reports
store_service_report_example = store_service_report "dune_production" schedds

abbrev get_calls : GetCalls
get_calls = record {
  stats = true;
  temp = some temp;
  bearer = some bearer;
  client = true;
  move = good_move;
  removes_bearer = true;
  removes_temp = true;
}

-- A client that leaves a token that is there as it is, and gets one otherwise.
abbrev client : String → String → Files → Files × Bool
client path _ files = elim (lookup files path) [
  | none ↦ (insert files path "new", true)
  | some text ↦ if text == "" then (insert files path "new", true) else (files, true)
]

client_leaves :
    (p b : String) (f : Files)
    → (client p b f).1 ≡ true
    → (token : String) × (lookup (client p b f).0 p ≡ some token)
client_leaves p b f h = elim (Option-cases (lookup (client p b f).0 p)) [
  | inl missing ↦ absurd (ground (arith, lookup-insert f p p "new"))
  | inr there ↦ there
]

get_calls-GetWorks : GetWorks get_calls temp bearer
get_calls-GetWorks = (refl, refl, refl, refl, (refl, refl, refl, refl), refl)

vault_token_stored_example :
    Ended
      (get_vault_token client get_calls disk condor)
      (client condor bearer (insert disk bearer ""))
      condor
      condor
      bearer
unfolding lookup string_comparable
vault_token_stored_example =
    vault_token_stored client client_leaves get_calls disk condor temp bearer get_calls-GetWorks
      bearer-condor temp-condor temp-bearer

abbrev job : String → Option TokenError → Job
job service e = record { service = service; interactive = false; error = e }

abbrev login_needed : TokenError
login_needed = record { text = "no token"; timed_out = false; auth_needed = some "login" }

get_token_worker_stops_example :
    get_token_worker (
      job "dune_production" none
      ∷ job "mu2e_production" (some login_needed)
      ∷ job "nova_production" none
      ∷ [])
    ≡ record {
      successes = ("mu2e_production", false) ∷ ("dune_production", true) ∷ [];
      notifications =
          new_setup_error "could not store and get vault tokens: login" "mu2e_production" ∷ [];
    }
get_token_worker_stops_example =
    get_token_worker_stops (job "dune_production" none ∷ []) (job "nova_production" none ∷ [])
      (job "mu2e_production" (some login_needed)) login_needed (refl, tt) refl
