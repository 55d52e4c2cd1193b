-- ===== src/TokenPush/Run.antt =====
-- cmd/token-push/main.go and serviceConfigWorker.go: the stages of a run, from the set-up of the
-- services to the map of those that succeeded. What a worker reports on the services that it is
-- given is an argument.
pub mod Successes
use managed_tokens.Base.{String, Bool, true, false, Option, none, some, List, [], ◌∷◌, ◌++◌, ◌&&◌}
use managed_tokens.Base.{◌==◌, if◌then◌else◌, not, is_none, string_comparable}
use managed_tokens.Base.Dict.{Dict, lookup, insert, erase}

-- The worker types that get a token, of which one is chosen for a service.
pub data TokenGetter : Type 0 where
  get_token store_and_get_token : TokenGetter

-- What the calls in the set-up of a service return; `none` and false are errors. The collector
-- host and the schedds are asked for only if the token is to be stored.
pub record ServiceInputs : Type 0 where
  pub name : String  -- getServiceName
  pub cache_created : Bool
  pub has_uid : Bool
  pub user_principal : String
  pub vault_server : Option String
  pub token_getter : TokenGetter
  pub schedds : Option (List String)
  pub nodes : List String
  pub config_created : Bool

-- What the stages use of the configuration of a service, and whether it is in onlyGetTokenServices.
pub record ServiceConfig : Type 0 where
  pub only_get_token : Bool
  pub schedds : List String
  pub vault_server : String
  pub nodes : List String

abbrev pub new_config : ServiceInputs → Bool → List String → String → Option ServiceConfig
new_config s only schedds vault_server =
    if s.config_created
    then some (record {
      only_get_token = only;
      schedds = schedds;
      vault_server = vault_server;
      nodes = s.nodes;
    })
    else none

abbrev pub with_token_getter : ServiceInputs → String → TokenGetter → Option ServiceConfig
with_token_getter s vault_server get_token = new_config s true [] vault_server
with_token_getter s vault_server store_and_get_token = elim s.schedds [
  | none ↦ none
  | some schedds ↦ new_config s false schedds vault_server
]

abbrev pub with_vault_server : ServiceInputs → Option String → Option ServiceConfig
with_vault_server s none = none
with_vault_server s (some vault_server) = with_token_getter s vault_server s.token_getter

-- The set-up of one service; it is skipped on any error.
unfoldable pub set_up_service : ServiceInputs → Option ServiceConfig
set_up_service s =
    if s.cache_created
    then (if s.has_uid
        then (if s.user_principal == "" then none else with_vault_server s s.vault_server)
        else none)
    else none

-- `successfulServices` after the set-up
unfoldable pub initial_successes : List ServiceInputs → Dict String Bool
initial_successes [] = []
initial_successes (s ∷ more) = insert (initial_successes more) s.name false

abbrev pub add_config :
    String → Option ServiceConfig → Dict String ServiceConfig → Dict String ServiceConfig
add_config name none configs = configs
add_config name (some c) configs = insert configs name c

-- `serviceConfigs` after the set-up; the goroutines of the services store in any order.
unfoldable pub set_up : List ServiceInputs → Dict String ServiceConfig
set_up [] = []
set_up (s ∷ more) = add_config s.name (set_up_service s) (set_up more)

pub data Stage : Type 0 where
  kerberos get_tokens store_and_get_tokens ping push : Stage

-- The reports of a worker on the configurations that it is given.
abbrev pub Workers : Type 0
Workers = Stage → Dict String ServiceConfig → List (String × Bool)

-- startServiceConfigWorkerForProcessing: without configurations no worker is started.
abbrev pub start_worker : Workers → Workers
start_worker w stage [] = []
start_worker w stage (c ∷ configs) = w stage (c ∷ configs)

-- removeFailedServiceConfigs: what is left
unfoldable pub remove_failed :
    List (String × Bool) → Dict String ServiceConfig → Dict String ServiceConfig
remove_failed [] configs = configs
remove_failed ((name, ok) ∷ more) configs =
    remove_failed more (if ok then configs else erase configs name)

-- Whether each configuration that is removed was there. The caller reads the name of the service of
-- each, which panics on the nil configuration of a service that is not.
unfoldable pub all_present : List (String × Bool) → Dict String ServiceConfig → Bool
all_present [] configs = true
all_present ((name, ok) ∷ more) configs =
    let rest = all_present more (if ok then configs else erase configs name) in
    if ok then rest else if is_none (lookup configs name) then false else rest

unfoldable pub only_get : Bool → Dict String ServiceConfig → Dict String ServiceConfig
only_get wanted [] = []
only_get wanted ((name, c) ∷ more) =
    let rest = only_get wanted more in
    if (if wanted then c.only_get_token else not c.only_get_token) then (name, c) ∷ rest else rest

-- The loops that set `successfulServices[service] = true`.
unfoldable pub mark_all : Dict String ServiceConfig → Dict String Bool → Dict String Bool
mark_all [] m = m
mark_all ((name, _) ∷ more) m = mark_all more (insert m name true)

unfoldable pub mark_pushed : List (String × Bool) → Dict String Bool → Dict String Bool
mark_pushed [] m = m
mark_pushed ((name, ok) ∷ more) m = mark_pushed more (if ok then insert m name true else m)

pub record Settings : Type 0 where
  pub test : Bool
  pub run_onboarding : Bool
  pub push_tokens : Bool

pub data Ending : Type 0 where
  returned returned_error panicked : Ending

pub record Outcome : Type 0 where
  pub successes : Dict String Bool
  pub ending : Ending

abbrev pub stops_early : Settings → Bool
stops_early s = if s.test then true else s.run_onboarding && not s.push_tokens

abbrev pub is_empty : Dict String ServiceConfig → Bool
is_empty [] = true
is_empty (_ ∷ _) = false

module _ (s : Settings) (w : Workers) where
  abbrev pub kerberos_reports : Dict String ServiceConfig → List (String × Bool)
  kerberos_reports configs = start_worker w kerberos configs

  abbrev pub get_reports : Dict String ServiceConfig → List (String × Bool)
  get_reports configs = start_worker w get_tokens (only_get true configs)

  abbrev pub store_reports : Dict String ServiceConfig → List (String × Bool)
  store_reports configs = start_worker w store_and_get_tokens (only_get false configs)

  -- From the ping of the nodes on, whose reports are only logged.
  abbrev pub push_stage : Dict String ServiceConfig → Dict String Bool → Outcome
  push_stage configs m = record {
    successes = mark_pushed (start_worker w push configs) m;
    ending = returned;
  }

  abbrev pub finish : Dict String ServiceConfig → Dict String Bool → Outcome
  finish configs m =
      if stops_early s
      then record { successes = mark_all configs m; ending = returned }
      else if is_empty configs
      then record { successes = m; ending = returned }
      else push_stage configs m

  -- The two stages of getting tokens: which configurations each is given is settled before them.
  unfoldable pub token_stages : Dict String ServiceConfig → Dict String Bool → Outcome
  token_stages configs m =
      let after_get = remove_failed (get_reports configs) configs in
      if all_present (get_reports configs) configs
      then (if all_present (store_reports configs) after_get
          then finish (remove_failed (store_reports configs) after_get) m
          else record { successes = m; ending = panicked })
      else record { successes = m; ending = panicked }

  unfoldable pub kerberos_stage : Dict String ServiceConfig → Dict String Bool → Outcome
  kerberos_stage configs m =
      let left = remove_failed (kerberos_reports configs) configs in
      if all_present (kerberos_reports configs) configs
      then (if is_empty left
          then record { successes = m; ending = returned }
          else token_stages left m)
      else record { successes = m; ending = panicked }

  -- run, by whether the database could be opened: UpdateNodes is called on it in any case, and
  -- reads a field of it.
  unfoldable pub run : Bool → List ServiceInputs → Outcome
  run has_database services =
      let m = initial_successes services in
      if is_empty (set_up services)
      then record { successes = m; ending = returned_error }
      else if has_database
      then kerberos_stage (set_up services) m
      else record { successes = m; ending = panicked }
