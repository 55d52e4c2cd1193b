-- ===== src/Worker/GetToken/Reports.antt =====
-- Which services the worker reports.
use managed_tokens.Base.{◌≡◌, refl, String, Bool, true, false, none, some, List, [], ◌∷◌, ◌++◌}
use managed_tokens.Base.Lists.{All}
use managed_tokens.Notifications.{new_setup_error}
use managed_tokens.Worker.GetToken.{TokenError, Job, err_to_report, get_tokens, get_token_worker}

-- The reports of jobs without an error, the last one first.
abbrev pub all_good : List Job → List (String × Bool) → List (String × Bool)
all_good [] deferred = deferred
all_good (j ∷ jobs) deferred = all_good jobs ((j.service, true) ∷ deferred)

abbrev pub IsGood : Job → Type 0
IsGood j = j.error ≡ none

get_tokens-stops :
    (good rest : List Job) (bad : Job) (e : TokenError) (deferred : List (String × Bool))
    → All IsGood good
    → bad.error ≡ some e
    → get_tokens deferred (good ++ (bad ∷ rest)) ≡ record {
      successes = (bad.service, false) ∷ all_good good deferred;
      notifications = new_setup_error (err_to_report bad.interactive e) bad.service ∷ [];
    }
unfolding get_tokens
get_tokens-stops [] rest bad e deferred _ h = rw h refl
get_tokens-stops (j ∷ good) rest bad e deferred (fine, all_fine) h =
    rw fine (get_tokens-stops good rest bad e ((j.service, true) ∷ deferred) all_fine h)

-- At the first service whose token cannot be had, the worker sends one setup error, reports that
-- service as failed and those before it as successes, the last one first, and reports nothing of the
-- services after it.
pub get_token_worker_stops :
    (good rest : List Job) (bad : Job) (e : TokenError)
    → All IsGood good
    → bad.error ≡ some e
    → get_token_worker (good ++ (bad ∷ rest)) ≡ record {
      successes = (bad.service, false) ∷ all_good good [];
      notifications = new_setup_error (err_to_report bad.interactive e) bad.service ∷ [];
    }
unfolding get_token_worker
get_token_worker_stops good rest bad e fine h = get_tokens-stops good rest bad e [] fine h
