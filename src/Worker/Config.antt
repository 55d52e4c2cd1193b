-- ===== src/Worker/Config.antt =====
-- internal/worker/config.go, configOption.go, workerType.go: the configuration of a service.
pub mod Specific
pub mod Extras
pub mod Options
use managed_tokens.Base.{ℕ, String, ◌<>◌, Bool, true, false, Option, none, some, List, [], ◌∷◌, ltb}
use managed_tokens.Base.{contains, string_comparable, nat_comparable, if◌then◌else◌}
use managed_tokens.Base.Dict.{Dict, insert}
use managed_tokens.Environment.{CommandEnvironment}

-- WorkerType is a uint8; the last constant is the first invalid value.
abbrev pub WorkerType : Type 0
WorkerType = ℕ

abbrev pub get_kerberos_tickets : WorkerType
get_kerberos_tickets = 0

abbrev pub get_token : WorkerType
get_token = 1

abbrev pub store_and_get_token : WorkerType
store_and_get_token = 2

abbrev pub ping_aggregator : WorkerType
ping_aggregator = 3

abbrev pub push_tokens : WorkerType
push_tokens = 4

abbrev pub invalid : WorkerType
invalid = 5

-- validWorkerTypes
abbrev pub valid_worker_types : List WorkerType
valid_worker_types =
    get_kerberos_tickets ∷ get_token ∷ store_and_get_token ∷ ping_aggregator ∷ push_tokens ∷ []

abbrev pub is_valid_worker_type : WorkerType → Bool
is_valid_worker_type w = ltb w invalid

-- WorkerSpecificConfigOption is a uint8 too.
abbrev pub WorkerSpecificConfigOption : Type 0
WorkerSpecificConfigOption = ℕ

abbrev pub num_retries_option : WorkerSpecificConfigOption
num_retries_option = 0

abbrev pub retry_sleep_option : WorkerSpecificConfigOption
retry_sleep_option = 1

abbrev pub interactive_token_getter_option : WorkerSpecificConfigOption
interactive_token_getter_option = 2

abbrev pub alternate_token_getter_option : WorkerSpecificConfigOption
alternate_token_getter_option = 3

abbrev pub alternate_token_storer_and_getter_option : WorkerSpecificConfigOption
alternate_token_storer_and_getter_option = 4

abbrev pub invalid_worker_specific_config_option : WorkerSpecificConfigOption
invalid_worker_specific_config_option = 5

abbrev pub is_valid_worker_specific_config_option : WorkerSpecificConfigOption → Bool
is_valid_worker_specific_config_option o = ltb o invalid_worker_specific_config_option

-- supportedExtrasKey
pub data SupportedExtrasKey : Type 0 where
  default_role_file_destination_template file_copier_options : SupportedExtrasKey
  ping_options ssh_options : SupportedExtrasKey

-- The values of type `any` that the maps hold, by their dynamic type. A value that implements
-- TokenGetter or TokenStorerAndGetter (or is a nil one) has a number for a name.
pub data Value : Type 0 where
  int : ℕ → Value
  uint : ℕ → Value
  duration : ℕ → Value
  bool : Bool → Value
  text : String → Value
  texts : List String → Value
  token_getter : ℕ → Value
  token_storer_and_getter : ℕ → Value

pub record Service : Type 0 where
  pub name : String
  pub experiment : String
  pub role : String

-- A nil map reads as an empty one. A nil `unPingableNodes` is `none`.
pub record Config : Type 0 where
  pub service : Service
  pub user_principal : String
  pub nodes : List String
  pub account : String
  pub keytab_path : String
  pub service_credd_vault_token_path_root : String
  pub desired_uid : ℕ
  -- nil is `none`
  pub schedds : Option (List String)
  pub vault_server : String
  pub extras : SupportedExtrasKey → Option Value
  pub worker_specific_config : Dict WorkerType (Dict WorkerSpecificConfigOption Value)
  pub command_environment : CommandEnvironment
  pub un_pingable_nodes : Option (List String)

-- ServiceNameFromExperimentAndRole
abbrev pub service_name_from_experiment_and_role : Config → String
service_name_from_experiment_and_role c = c.service.experiment <> ("_" <> c.service.role)

-- RegisterUnpingableNode; `none` is the nil dereference.
abbrev pub register_unpingable_node : Config → String → Option Config
register_unpingable_node c node = elim c.un_pingable_nodes [
  | none ↦ none
  | some nodes ↦ some (record c { un_pingable_nodes = some (node ∷ nodes) })
]

-- IsNodeUnpingable, of a configuration that NewConfig returned without an error.
abbrev pub is_node_unpingable : Config → String → Bool
is_node_unpingable c node = elim c.un_pingable_nodes [
  | none ↦ false
  | some nodes ↦ contains nodes node
]

-- The untyped constant 0, which is an `int` where it is stored as `any`.
abbrev pub retry_default : Value
retry_default = int 0

defaults_for :
    List WorkerType
    → Dict WorkerType (Dict WorkerSpecificConfigOption Value)
    → Dict WorkerType (Dict WorkerSpecificConfigOption Value)
defaults_for [] m = m
defaults_for (w ∷ ws) m = defaults_for ws (insert m w (insert [] num_retries_option retry_default))

-- initializeWorkerSpecificConfigDefaults
unfoldable pub initialize_worker_specific_config_defaults :
    Dict WorkerType (Dict WorkerSpecificConfigOption Value)
unfolding defaults_for
initialize_worker_specific_config_defaults = defaults_for valid_worker_types []
