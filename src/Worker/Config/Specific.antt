-- ===== src/Worker/Config/Specific.antt =====
-- internal/worker/workerSpecificConfig.go: options that are kept by worker type, and read with a
-- check of the type of their value.
use managed_tokens.Base.{ℕ, Bool, false, not, Option, none, some, List, [], ◌∷◌}
use managed_tokens.Base.{contains, nat_comparable, if◌then◌else◌}
use managed_tokens.Base.Dict.{Dict, lookup, insert}
use managed_tokens.Worker.Config.{
  WorkerType, get_token, store_and_get_token, push_tokens, is_valid_worker_type,
  WorkerSpecificConfigOption, num_retries_option, retry_sleep_option,
  interactive_token_getter_option, alternate_token_getter_option,
  alternate_token_storer_and_getter_option, is_valid_worker_specific_config_option, Value, uint,
  duration, bool, token_getter, token_storer_and_getter, Config,
}

pub data Error : Type 0 where
  invalid_worker_type : Error
  invalid_option : Error
  not_in_valid_worker_types : Error
  -- errNoWorkerTypeMapInConfig
  no_worker_type_map_in_config : Error
  -- an error of its own text, made from errNoWorkerTypeMapInConfig without wrapping it
  no_token_getter_configuration : Error
  no_option_found : Error
  wrong_type : Error

pub data Result (A : Type 0) : Type 0 where
  ok : A → Result A
  err : Error → Result A

infixl 5 ◌>>=◌
abbrev pub ◌>>=◌ : {A B : Type 0} → Result A → (A → Result B) → Result B
ok a >>= f = f a
err e >>= f = err e

abbrev or_new :
    Option (Dict WorkerSpecificConfigOption Value) → Dict WorkerSpecificConfigOption Value
or_new none = []
or_new (some m) = m

-- The option of SetWorkerSpecificConfigOption, run on a configuration.
unfoldable pub set_worker_specific_config_option :
    WorkerType → WorkerSpecificConfigOption → Value → Config → Result Config
set_worker_specific_config_option w option value c =
    if not (is_valid_worker_type w)
    then err invalid_worker_type
    else if not (is_valid_worker_specific_config_option option)
    then err invalid_option
    else ok (record c {
      worker_specific_config =
          insert c.worker_specific_config w
            (insert (or_new (lookup c.worker_specific_config w)) option value);
    })

-- ValidRetryWorkerTypes
abbrev pub valid_retry_worker_types : List WorkerType
valid_retry_worker_types = push_tokens ∷ []

-- ValidTokenGetterWorkerTypes
abbrev pub valid_token_getter_worker_types : List WorkerType
valid_token_getter_worker_types = get_token ∷ store_and_get_token ∷ []

abbrev pub set_num_retries_option : WorkerType → ℕ → Config → Result Config
set_num_retries_option w n = set_worker_specific_config_option w num_retries_option (uint n)

abbrev pub set_retry_sleep_option : WorkerType → ℕ → Config → Result Config
set_retry_sleep_option w d = set_worker_specific_config_option w retry_sleep_option (duration d)

-- SetInteractiveTokenGetterOption does nothing for other workers.
abbrev pub set_interactive_token_getter_option : WorkerType → Bool → Config → Result Config
set_interactive_token_getter_option w b c =
    if not (contains valid_token_getter_worker_types w)
    then ok c
    else set_worker_specific_config_option w interactive_token_getter_option (bool b) c

abbrev pub set_alternate_token_getter_option : WorkerType → ℕ → Config → Result Config
set_alternate_token_getter_option w g =
    set_worker_specific_config_option w alternate_token_getter_option (token_getter g)

abbrev pub set_alternate_token_storer_and_getter_option : WorkerType → ℕ → Config → Result Config
set_alternate_token_storer_and_getter_option w g =
    set_worker_specific_config_option w alternate_token_storer_and_getter_option
      (token_storer_and_getter g)

-- getWorkerTypeMapFromConfig, at a list of valid types that is not nil.
unfoldable pub get_worker_type_map_from_config :
    Config → WorkerType → List WorkerType → Result (Dict WorkerSpecificConfigOption Value)
get_worker_type_map_from_config c w valid =
    if not (is_valid_worker_type w)
    then err invalid_worker_type
    else if not (contains valid w)
    then err not_in_valid_worker_types
    else elim (lookup c.worker_specific_config w) [
      | none ↦ err no_worker_type_map_in_config
      | some m ↦ ok m
    ]

abbrev as_uint : Option Value → Result ℕ
as_uint none = err no_option_found
as_uint (some (uint n)) = ok n
as_uint (some _) = err wrong_type

abbrev as_duration : Option Value → Result ℕ
as_duration none = err no_option_found
as_duration (some (duration d)) = ok d
as_duration (some _) = err wrong_type

-- An option that is not set is no error here.
abbrev as_bool : Option Value → Result Bool
as_bool none = ok false
as_bool (some (bool b)) = ok b
as_bool (some _) = err wrong_type

abbrev as_token_getter : Option Value → Result ℕ
as_token_getter none = err no_option_found
as_token_getter (some (token_getter g)) = ok g
as_token_getter (some _) = err wrong_type

abbrev as_token_storer_and_getter : Option Value → Result ℕ
as_token_storer_and_getter none = err no_option_found
as_token_storer_and_getter (some (token_storer_and_getter g)) = ok g
as_token_storer_and_getter (some _) = err wrong_type

-- The errors that three of the getters replace.
abbrev renamed : {A : Type 0} → Result A → Result A
renamed (ok a) = ok a
renamed (err no_worker_type_map_in_config) = err no_token_getter_configuration
renamed (err e) = err e

-- getWorkerNumRetriesValueFromConfig
unfoldable pub get_worker_num_retries_value_from_config : Config → WorkerType → Result ℕ
unfolding get_worker_type_map_from_config
get_worker_num_retries_value_from_config c w = do
  m ← get_worker_type_map_from_config c w valid_retry_worker_types
  as_uint (lookup m num_retries_option)

-- getWorkerRetrySleepValueFromConfig
unfoldable pub get_worker_retry_sleep_value_from_config : Config → WorkerType → Result ℕ
unfolding get_worker_type_map_from_config
get_worker_retry_sleep_value_from_config c w = do
  m ← get_worker_type_map_from_config c w valid_retry_worker_types
  as_duration (lookup m retry_sleep_option)

-- getInteractiveTokenGetterOptionFromConfig
unfoldable pub get_interactive_token_getter_option_from_config : Config → WorkerType → Result Bool
unfolding get_worker_type_map_from_config
get_interactive_token_getter_option_from_config c w = do
  m ← renamed (get_worker_type_map_from_config c w valid_token_getter_worker_types)
  as_bool (lookup m interactive_token_getter_option)

-- getAlternateTokenGetterOptionFromConfig
unfoldable pub get_alternate_token_getter_option_from_config : Config → WorkerType → Result ℕ
unfolding get_worker_type_map_from_config
get_alternate_token_getter_option_from_config c w = do
  m ← renamed (get_worker_type_map_from_config c w valid_token_getter_worker_types)
  as_token_getter (lookup m alternate_token_getter_option)

-- getAlternateTokenStorerAndGetterOptionFromConfig
unfoldable pub get_alternate_token_storer_and_getter_option_from_config :
    Config → WorkerType → Result ℕ
unfolding get_worker_type_map_from_config
get_alternate_token_storer_and_getter_option_from_config c w = do
  m ← renamed (get_worker_type_map_from_config c w valid_token_getter_worker_types)
  as_token_storer_and_getter (lookup m alternate_token_storer_and_getter_option)
