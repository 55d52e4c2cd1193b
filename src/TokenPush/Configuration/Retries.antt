-- ===== src/TokenPush/Configuration/Retries.antt =====
-- cmd/token-push/config.go and workerType.go: the type of worker that gets a token, and the retries
-- of the workers, checked against their timeouts. A duration is a count of nanoseconds, an int64.
pub mod Checks
pub mod Fitting
use managed_tokens.Base.{ℕ, ◌*◌, ◌%◌, ◌^◌, String, Bool, true, false, Option, none, some, List, []}
use managed_tokens.Base.{◌∷◌, ◌==◌, ltb, leb, if◌then◌else◌, contains, nat_comparable}
use managed_tokens.Base.{string_comparable, not}
use managed_tokens.Base.Integers.{ℤ, pos, ltb_ℤ, to_uint, wrapped_product}
use managed_tokens.Base.Dict.{Dict, insert}
use managed_tokens.Worker.Config.{
  WorkerType, get_kerberos_tickets, get_token, store_and_get_token, ping_aggregator, push_tokens,
}
use managed_tokens.Worker.Config.Specific.{
  valid_retry_worker_types, valid_token_getter_worker_types,
}
use managed_tokens.TokenPush.Configuration.{Viper, get_config_override_path}

-- validWorkerTypes, and workerTypeToConfigString of each
abbrev pub config_strings : List (WorkerType × String)
config_strings =
    (get_kerberos_tickets, "getKerberosTickets")
    ∷ (get_token, "getToken")
    ∷ (store_and_get_token, "storeAndGetToken")
    ∷ (ping_aggregator, "pingAggregator")
    ∷ (push_tokens, "pushTokens")
    ∷ []

-- The loop of workerTypeFromConfig.
abbrev pub find_config_string : List (WorkerType × String) → String → Option WorkerType
find_config_string [] text = none
find_config_string ((t, s) ∷ more) text = if text == s then some t else find_config_string more text

-- workerTypeFromConfig
unfoldable pub worker_type_from_config : String → Option WorkerType
worker_type_from_config = find_config_string config_strings

abbrev pub valid_getter : Option WorkerType → WorkerType
valid_getter none = store_and_get_token
valid_getter (some t) =
    if contains valid_token_getter_worker_types t then t else store_and_get_token

-- getTokenGetterOverrideFromConfiguration
unfoldable pub get_token_getter_override_from_configuration : Viper → String → WorkerType
get_token_getter_override_from_configuration v path =
    let (key, overridden) = get_config_override_path v path "tokenGetter" in
    if overridden
    then valid_getter (worker_type_from_config (v.get_string key))
    else store_and_get_token

-- What is stored for a worker: a `uint`, and a duration.
pub record WorkerRetryConfig : Type 0 where
  pub num_retries : ℕ
  pub retry_sleep : ℤ

-- What the configuration says of a worker: an `int`, and a duration. Either may be negative.
pub record ConfiguredRetries : Type 0 where
  pub num_retries : ℤ
  pub retry_sleep : ℤ

-- checkRetryTimeout: whether it returns no error.
unfoldable pub check_retry_timeout : ℤ → ℤ → ℤ → Bool
check_retry_timeout num_retries sleep timeout =
    not (ltb_ℤ timeout (wrapped_product num_retries sleep))

-- The rows of `_retryArgs`, by the timeouts for Kerberos, the vault storer, the ping and the push.
abbrev pub retry_args : ℤ → ℤ → ℤ → ℤ → List (WorkerType × ℤ)
retry_args kerberos vault_storer ping push =
    (get_kerberos_tickets, kerberos)
    ∷ (get_token, vault_storer)
    ∷ (store_and_get_token, vault_storer)
    ∷ (ping_aggregator, ping)
    ∷ (push_tokens, push)
    ∷ []

-- The retries that the configuration gives for a worker, as getWorkerConfigInteger[int] and
-- getWorkerConfigTimeDuration read them.
abbrev pub RetryInfo : Type 0
RetryInfo = WorkerType → ConfiguredRetries

-- getAndCheckRetryInfoFromConfig; none is its error.
unfoldable pub get_and_check_retry_info : RetryInfo → WorkerType → ℤ → Option ConfiguredRetries
get_and_check_retry_info info t timeout =
    let r = info t in
    if check_retry_timeout r.num_retries r.retry_sleep timeout then some r else none

-- The entry that createWorkerRetryMap makes.
abbrev pub stored_retries : ConfiguredRetries → WorkerRetryConfig
stored_retries r = record { num_retries = to_uint r.num_retries; retry_sleep = r.retry_sleep }

-- The loop of createWorkerRetryMap.
unfoldable pub retry_loop :
    RetryInfo
    → List (WorkerType × ℤ)
    → Dict WorkerType WorkerRetryConfig
    → Option (Dict WorkerType WorkerRetryConfig)
retry_loop info [] m = some m
retry_loop info ((t, timeout) ∷ more) m = elim (get_and_check_retry_info info t timeout) [
  | none ↦ none
  | some r ↦ retry_loop info more (insert m t (stored_retries r))
]

-- createWorkerRetryMap
unfoldable pub create_worker_retry_map :
    RetryInfo → List (WorkerType × ℤ) → Option (Dict WorkerType WorkerRetryConfig)
create_worker_retry_map info args = retry_loop info args []

abbrev pub default_retries : List WorkerType → Dict WorkerType WorkerRetryConfig
default_retries [] = []
default_retries (t ∷ more) =
    let rest = default_retries more in
    if contains valid_retry_worker_types t
    then (t, record { num_retries = 0; retry_sleep = pos 0 }) ∷ rest
    else rest

-- setDefaultWorkerRetryMap
unfoldable pub set_default_worker_retry_map : Dict WorkerType WorkerRetryConfig
set_default_worker_retry_map =
    default_retries
      (get_kerberos_tickets ∷ get_token ∷ store_and_get_token ∷ ping_aggregator ∷ push_tokens ∷ [])

-- The map that run gives to the configurations.
unfoldable pub worker_retry_map :
    RetryInfo → List (WorkerType × ℤ) → Dict WorkerType WorkerRetryConfig
worker_retry_map info args = elim (create_worker_retry_map info args) [
  | none ↦ set_default_worker_retry_map
  | some m ↦ m
]
