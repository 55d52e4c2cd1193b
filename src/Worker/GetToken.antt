-- ===== src/Worker/GetToken.antt =====
-- internal/worker/getTokenWorker.go: getting a vault token for one service, and the worker for the
-- configurations of several.
pub mod Storage
pub mod Reports
use managed_tokens.Base.{
  String, ◌<>◌, Bool, true, false, not, ◌&&◌, Option, none, some, List, [], ◌∷◌,
}
use managed_tokens.Base.{if◌then◌else◌, ◌==◌, string_comparable}
use managed_tokens.Base.Dict.{insert}
use managed_tokens.Notifications.{Notification, new_setup_error}
use managed_tokens.Worker.CreddStore.{
  Files, MoveCalls, move_file_cross_device, remove, stat, Stat, found, not_exist, stat_failed,
}

-- What the calls of GetToken meet: the names that `os.CreateTemp` found for the vault token and for
-- the bearer token, whether the client could be made, the move, and the removals.
pub record GetCalls : Type 0 where
  pub stats : Bool
  pub temp : Option String
  pub bearer : Option String
  pub client : Bool
  pub move : MoveCalls
  pub removes_bearer : Bool
  pub removes_temp : Bool

-- How GetToken ends. Without a file for the bearer token, `_bearerTokenFile` is nil, and its name is
-- a nil dereference.
pub data Ending : Type 0 where
  token_obtained get_failed panicked : Ending

-- `get_token` is GetToken of the htgettoken client: the vault token's path, the bearer token's path
-- and the files, with the files that it leaves and whether there was no error.
module _ (get_token : String → String → Files → Files × Bool) where
  -- With the file for the bearer token, which is removed at the end.
  unfoldable pub get_and_move : GetCalls → Files → String → String → String → Files × Ending
  unfolding move_file_cross_device remove
  get_and_move calls files path use_path bearer =
      let created = insert files bearer "" in
      let (gotten, succeeded) = get_token use_path bearer created in
      let moved =
        if use_path == path
        then gotten
        else (move_file_cross_device calls.move gotten use_path path).0 in
      if calls.client
      then if succeeded
        then ((remove calls.removes_bearer moved bearer).0, token_obtained)
        else ((remove calls.removes_bearer gotten bearer).0, get_failed)
      else ((remove calls.removes_bearer created bearer).0, get_failed)

  abbrev pub get_at : GetCalls → Files → String → String → Files × Ending
  get_at calls files path use_path = elim calls.bearer [
    | none ↦ (files, panicked)
    | some bearer ↦ get_and_move calls files path use_path bearer
  ]

  -- tokenGetterConfig.GetToken, where `path` is the place of the service's vault token. A temporary
  -- file for the vault token is removed at the end.
  unfoldable pub get_vault_token : GetCalls → Files → String → Files × Ending
  unfolding get_and_move
  get_vault_token calls files path =
      let here = get_at calls files path path in
      elim (stat calls.stats files path) [
        | found ↦ here
        | stat_failed ↦ here
        | not_exist ↦ elim calls.temp [
          | none ↦ (files, get_failed)
          | some temp ↦
              let (files', ending) = get_at calls (insert files temp "") path temp in
              ((remove calls.removes_temp files' temp).0, ending)
        ]
      ]

-- An error of a TokenGetter: its text, whether it is the end of the context's time, and the text of
-- the error that it wraps if that is the need for an authorization.
pub record TokenError : Type 0 where
  pub text : String
  pub timed_out : Bool
  pub auth_needed : Option String

-- A configuration that the worker takes, with what comes of its token getter.
pub record Job : Type 0 where
  pub service : String
  pub interactive : Bool
  pub error : Option TokenError

-- `errToReport`
abbrev pub err_to_report : Bool → TokenError → String
err_to_report interactive e =
    let whole : String = "could not store and get vault tokens: " <> e.text in
    if e.timed_out then e.text <> ": timeout error" else elim e.auth_needed [
      | none ↦ whole
      | some auth ↦ if interactive then whole else "could not store and get vault tokens: " <> auth
    ]

-- What the worker sends until it returns.
pub record Sent : Type 0 where
  pub successes : List (String × Bool)
  pub notifications : List Notification

-- The loop of getTokenWorker. The reports are deferred to its end, and so are sent in the reverse of
-- their order; the first failure is a return from the worker.
unfoldable pub get_tokens : List (String × Bool) → List Job → Sent
get_tokens deferred [] = record { successes = deferred; notifications = [] }
get_tokens deferred (j ∷ jobs) =
    let rest = get_tokens ((j.service, true) ∷ deferred) jobs in
    elim j.error [
      | none ↦ rest
      | some e ↦ record {
        successes = (j.service, false) ∷ deferred;
        notifications = new_setup_error (err_to_report j.interactive e) j.service ∷ [];
      }
    ]

-- getTokenWorker
unfoldable pub get_token_worker : List Job → Sent
unfolding get_tokens
get_token_worker jobs = get_tokens [] jobs
