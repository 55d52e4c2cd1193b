-- ===== src/Worker/Config/Options.antt =====
-- internal/worker/config.go, configOption.go: NewConfig and its options.
pub mod Readback
use managed_tokens.Base.{ℕ, String, Option, none, some, List, [], ◌∷◌}
use managed_tokens.Base.Dict.{Dict}
use managed_tokens.Environment.{CommandEnvironment}
use managed_tokens.Worker.Config.{
  SupportedExtrasKey, Value, Service, Config, WorkerType, WorkerSpecificConfigOption,
  initialize_worker_specific_config_defaults,
}
use managed_tokens.Worker.Config.Specific.{Error, Result, ok, err}
use managed_tokens.Worker.Config.Extras.{set_supported_extras_key_value}

-- What an option leaves: the configuration behind the pointer, the error that it returns, and what
-- is then in the two maps that the configuration had before. These are the maps of the configuration
-- unless the option put other maps there.
pub record OptionResult : Type 0 where
  pub config : Config
  pub error : Option Error
  pub old_extras : SupportedExtrasKey → Option Value
  pub old_worker_specific_config : Dict WorkerType (Dict WorkerSpecificConfigOption Value)

abbrev pub ConfigOption : Type 0
ConfigOption = Config → OptionResult

-- The result of an option that keeps the maps, and at most puts entries into them.
abbrev pub in_place : Config → Option Error → OptionResult
in_place c e = record {
  config = c;
  error = e;
  old_extras = c.extras;
  old_worker_specific_config = c.worker_specific_config;
}

abbrev pub set_command_environment : List (CommandEnvironment → CommandEnvironment) → ConfigOption
set_command_environment [] c = in_place c none
set_command_environment (f ∷ fs) c =
    set_command_environment fs (record c { command_environment = f c.command_environment })

abbrev pub set_user_principal : String → ConfigOption
set_user_principal value c = in_place (record c { user_principal = value }) none

abbrev pub set_nodes : List String → ConfigOption
set_nodes value c = in_place (record c { nodes = value }) none

abbrev pub set_account : String → ConfigOption
set_account value c = in_place (record c { account = value }) none

abbrev pub set_keytab_path : String → ConfigOption
set_keytab_path value c = in_place (record c { keytab_path = value }) none

abbrev pub set_desired_uid : ℕ → ConfigOption
set_desired_uid value c = in_place (record c { desired_uid = value }) none

abbrev pub set_schedds : Option (List String) → ConfigOption
set_schedds value c = in_place (record c { schedds = value }) none

abbrev pub set_vault_server : String → ConfigOption
set_vault_server value c = in_place (record c { vault_server = value }) none

abbrev pub set_service_credd_vault_token_path_root : String → ConfigOption
set_service_credd_vault_token_path_root value c =
    in_place (record c { service_credd_vault_token_path_root = value }) none

abbrev pub set_extra : SupportedExtrasKey → Value → ConfigOption
set_extra key v c = in_place (set_supported_extras_key_value key v c) none

abbrev from_result : Config → Result Config → OptionResult
from_result c (ok c') = in_place c' none
from_result c (err e) = in_place c (some e)

-- An option of workerSpecificConfig.go: it fails before it changes anything.
abbrev pub worker_specific : (Config → Result Config) → ConfigOption
worker_specific set c = from_result c (set c)

abbrev pub no_environment : CommandEnvironment
no_environment = record {
  krb5ccname = "";
  condor_credd_host = "";
  condor_collector_host = "";
  htgettoken_opts = "";
  condor_sec_credential_gettoken_opts = "";
}

-- The configuration before the options.
unfoldable pub initial_config : Service → Config
initial_config service = record {
  service = service;
  user_principal = "";
  nodes = [];
  account = "";
  keytab_path = "";
  service_credd_vault_token_path_root = "";
  desired_uid = 0;
  schedds = none;
  vault_server = "";
  extras = λ _. none;
  worker_specific_config = initialize_worker_specific_config_defaults;
  command_environment = no_environment;
  un_pingable_nodes = none;
}

-- The backup after an option: backupConfig copies the two maps by reference, so the backup shows
-- what the option put into them.
abbrev pub restored : Config → OptionResult → Config
restored backup r = record backup {
  extras = r.old_extras;
  worker_specific_config = r.old_worker_specific_config;
}

-- The loop of NewConfig over its options.
unfoldable pub apply_options : Config → List ConfigOption → Config × Option Error
apply_options c [] = (record c { un_pingable_nodes = some [] }, none)
apply_options c (option ∷ options) =
    let r = option c in
    elim r.error [ none ↦ apply_options r.config options | some e ↦ (restored c r, some e) ]

-- NewConfig
unfoldable pub new_config : Service → List ConfigOption → Config × Option Error
unfolding apply_options
new_config service options = apply_options (initial_config service) options
