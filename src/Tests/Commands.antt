-- ===== src/Tests/Commands.antt =====
-- The environment of commands and the configuration of workers, at concrete values.
use managed_tokens.Base.{◌≡◌, refl, String, true, false, ◌&&◌, none, some, arith}
use managed_tokens.Base.{[], ◌∷◌, ◌==◌, nat_comparable, string_comparable}
use managed_tokens.Base.Dict.{lookup, insert}
use mathlib.Core.Logic.{◌≢◌}
use managed_tokens.Environment.{
  CommandEnvironmentField, krb5ccname, condor_credd_host, condor_collector_host, htgettoken_opts,
  condor_sec_credential_gettoken_opts, file, OsEnvironment, get_value, env_var_key,
  environment_wrapped_command,
}
use managed_tokens.Environment.Settings.{set_setting, written, get_value-set_setting}
use managed_tokens.Environment.Isolation.{environment_wrapped_command_unset}
use managed_tokens.Worker.Config.{
  Service, Config, uint, push_tokens, get_token, num_retries_option, is_valid_worker_type,
  is_valid_worker_specific_config_option, initialize_worker_specific_config_defaults,
}
use managed_tokens.Worker.Config.Specific.{
  invalid_worker_type, wrong_type, Result, ok, err, set_num_retries_option,
  set_worker_specific_config_option, set_interactive_token_getter_option,
  get_worker_num_retries_value_from_config,
}
use managed_tokens.Worker.Config.Options.{
  ConfigOption, initial_config, set_account, in_place, new_config, apply_options, no_environment,
}
use managed_tokens.Worker.Config.Options.Readback.{
  option_at, option_at-set, default_retries_refused, new_config_failed, KeepsRetries,
}

credd_is_not_krb5ccname : krb5ccname ≢ condor_credd_host
credd_is_not_krb5ccname = ground arith

get_value-set_setting_example :
    let c = set_setting krb5ccname file no_environment "/tmp/krb5cc" in
    (get_value c krb5ccname ≡ written krb5ccname file "/tmp/krb5cc")
    × (get_value c condor_credd_host ≡ get_value no_environment condor_credd_host)
get_value-set_setting_example =
    get_value-set_setting krb5ccname condor_credd_host file no_environment "/tmp/krb5cc"
      credd_is_not_krb5ccname

different : (a b : String) → a == b ≡ false → a ≢ b
different a b h = ground arith

path_is_not_supported : (f : CommandEnvironmentField) → "PATH" ≢ env_var_key f
unfolding string_comparable
path_is_not_supported krb5ccname = different _ _ refl
path_is_not_supported condor_credd_host = different _ _ refl
path_is_not_supported condor_collector_host = different _ _ refl
path_is_not_supported htgettoken_opts = different _ _ refl
path_is_not_supported condor_sec_credential_gettoken_opts = different _ _ refl

abbrev process : OsEnvironment
process = ("PATH", "/bin") ∷ ("HTGETTOKENOPTS", "--vaultserver") ∷ []

environment_wrapped_command_unset_example :
    let (os', cmd) = environment_wrapped_command process no_environment in
    ((f : CommandEnvironmentField) → lookup cmd.inherited (env_var_key f) ≡ none)
    × (lookup cmd.inherited "PATH" ≡ lookup process "PATH")
    × (lookup os' "PATH" ≡ lookup process "PATH")
environment_wrapped_command_unset_example =
    environment_wrapped_command_unset process no_environment "PATH" path_is_not_supported

abbrev service : Service
service = record { name = "dune_production"; experiment = "dune"; role = "production" }

abbrev base : Config
base = initial_config service

abbrev config_of : Result Config → Config
config_of (ok c) = c
config_of (err _) = base

abbrev with_retries : Config
with_retries = config_of (set_num_retries_option push_tokens 3 base)

retries_set :
    set_worker_specific_config_option push_tokens num_retries_option (uint 3) base ≡ ok with_retries
unfolding set_worker_specific_config_option initial_config
    initialize_worker_specific_config_defaults lookup insert nat_comparable
retries_set = refl

option_at-set_example :
    ((is_valid_worker_type push_tokens && is_valid_worker_specific_config_option num_retries_option)
      ≡ true)
    × (option_at with_retries push_tokens num_retries_option ≡ some (uint 3))
unfolding nat_comparable
option_at-set_example =
    option_at-set push_tokens push_tokens num_retries_option num_retries_option (uint 3) base
      with_retries retries_set

abbrev interactive_config : Config
interactive_config = config_of (set_interactive_token_getter_option get_token true base)

interactive_set : set_interactive_token_getter_option get_token true base ≡ ok interactive_config
unfolding set_worker_specific_config_option initial_config
    initialize_worker_specific_config_defaults lookup insert nat_comparable
interactive_set = refl

account_KeepsRetries : KeepsRetries (set_account "dunepro")
account_KeepsRetries c = (refl, refl)

default_retries_refused_example :
    get_worker_num_retries_value_from_config
      (new_config service (set_account "dunepro" ∷ [])).0
      push_tokens
    ≡ err wrong_type
default_retries_refused_example =
    default_retries_refused service (set_account "dunepro" ∷ []) (account_KeepsRetries, tt)

-- An option that sets the account and puts an entry into a map before it fails.
abbrev bad_option : ConfigOption
bad_option c =
    in_place (record (config_of (set_num_retries_option push_tokens 3 c)) { account = "mu2epro" })
      (some invalid_worker_type)

abbrev with_account : Config
with_account = (set_account "dunepro" base).config

new_config_failed_example : apply_options base (set_account "dunepro" ∷ bad_option ∷ []) ≡ (
  record with_account {
    extras = (bad_option with_account).old_extras;
    worker_specific_config = (bad_option with_account).old_worker_specific_config;
  },
  some invalid_worker_type,
)
new_config_failed_example =
    new_config_failed (set_account "dunepro" ∷ []) bad_option [] base with_account
      invalid_worker_type (refl, refl) refl

-- The entry of the failed option is there, and its account is not.
failed_entry_kept :
    let c = (apply_options base (set_account "dunepro" ∷ bad_option ∷ [])).0 in
    (c.account ≡ "dunepro") × (option_at c push_tokens num_retries_option ≡ some (uint 3))
unfolding apply_options set_worker_specific_config_option initial_config
    initialize_worker_specific_config_defaults lookup insert nat_comparable
failed_entry_kept = (refl, refl)
