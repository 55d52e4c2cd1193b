-- ===== src/Environment.antt =====
-- internal/environment: the environment variables of the commands that are run.
pub mod Settings
pub mod Isolation
use Prim.Native.Char.{code}
use Prim.Native.String
use managed_tokens.Base.{
  ℕ, String, ◌<>◌, Bool, true, false, Option, none, some, List, [], ◌∷◌, ◌++◌,
}
use managed_tokens.Base.{◌==◌, nat_comparable, string_comparable, if◌then◌else◌}
use managed_tokens.Base.Dict.{Dict, erase}

-- supportedCommandEnvironmentField
pub data CommandEnvironmentField : Type 0 where
  krb5ccname condor_credd_host condor_collector_host : CommandEnvironmentField
  htgettoken_opts condor_sec_credential_gettoken_opts : CommandEnvironmentField

-- getAllSupportedCommandEnvironmentFields
abbrev pub all_fields : List CommandEnvironmentField
all_fields =
    krb5ccname ∷ condor_credd_host ∷ condor_collector_host ∷ htgettoken_opts
    ∷ condor_sec_credential_gettoken_opts ∷ []

-- EnvVarKey
abbrev pub env_var_key : CommandEnvironmentField → String
env_var_key krb5ccname = "KRB5CCNAME"
env_var_key condor_credd_host = "_condor_CREDD_HOST"
env_var_key condor_collector_host = "_condor_COLLECTOR_HOST"
env_var_key htgettoken_opts = "HTGETTOKENOPTS"
env_var_key condor_sec_credential_gettoken_opts = "_condor_SEC_CREDENTIAL_GETTOKEN_OPTS"

pub data KerberosCcacheType : Type 0 where
  api dir file keyring : KerberosCcacheType

-- kerberosCCacheType.String
abbrev pub ccache_prefix : KerberosCcacheType → String
ccache_prefix dir = "DIR:"
ccache_prefix file = "FILE:"
ccache_prefix api = "unsupported kerberos cache type"
ccache_prefix keyring = "unsupported kerberos cache type"

pub record CommandEnvironment : Type 0 where
  pub krb5ccname : String
  pub condor_credd_host : String
  pub condor_collector_host : String
  pub htgettoken_opts : String
  pub condor_sec_credential_gettoken_opts : String

abbrev pub assignment : CommandEnvironmentField → String → String
assignment f value = env_var_key f <> ("=" <> value)

abbrev pub set_krb5ccname : CommandEnvironment → String → KerberosCcacheType → CommandEnvironment
set_krb5ccname c value t = record c {
  krb5ccname = assignment krb5ccname (ccache_prefix t <> value);
}

abbrev pub set_condor_credd_host : CommandEnvironment → String → CommandEnvironment
set_condor_credd_host c value = record c { condor_credd_host = assignment condor_credd_host value }

abbrev pub set_condor_collector_host : CommandEnvironment → String → CommandEnvironment
set_condor_collector_host c value = record c {
  condor_collector_host = assignment condor_collector_host value;
}

abbrev pub set_htgettoken_opts : CommandEnvironment → String → CommandEnvironment
set_htgettoken_opts c value = record c { htgettoken_opts = assignment htgettoken_opts value }

abbrev pub set_condor_sec_credential_gettoken_opts :
    CommandEnvironment → String → CommandEnvironment
set_condor_sec_credential_gettoken_opts c value = record c {
  condor_sec_credential_gettoken_opts = assignment condor_sec_credential_gettoken_opts value;
}

-- GetSetting, by mapSupportedFieldToStructField
abbrev pub get_setting : CommandEnvironment → CommandEnvironmentField → String
get_setting c krb5ccname = c.krb5ccname
get_setting c condor_credd_host = c.condor_credd_host
get_setting c condor_collector_host = c.condor_collector_host
get_setting c htgettoken_opts = c.htgettoken_opts
get_setting c condor_sec_credential_gettoken_opts = c.condor_sec_credential_gettoken_opts

-- What is left of a text behind a prefix, if it has the prefix.
unfoldable pub strip_prefix : String → String → Option String
strip_prefix String.[] s = some s
strip_prefix (String.◌∷◌ c p) String.[] = none
strip_prefix (String.◌∷◌ c p) (String.◌∷◌ d s) =
    let rest = strip_prefix p s in if code c == code d then rest else none

-- strings.TrimPrefix
unfoldable pub trim_prefix : String → String → String
unfolding strip_prefix
trim_prefix s prefix = elim (strip_prefix prefix s) [ none ↦ s | some rest ↦ rest ]

-- GetValue
unfoldable pub get_value : CommandEnvironment → CommandEnvironmentField → String
unfolding trim_prefix
get_value c f = trim_prefix (get_setting c f) (env_var_key f <> "=")

-- Copy
abbrev pub copy : CommandEnvironment → CommandEnvironment
copy c = record {
  krb5ccname = c.krb5ccname;
  condor_credd_host = c.condor_credd_host;
  condor_collector_host = c.condor_collector_host;
  htgettoken_opts = c.htgettoken_opts;
  condor_sec_credential_gettoken_opts = c.condor_sec_credential_gettoken_opts;
}

-- The environment of the process (os.Environ), by key.
abbrev pub OsEnvironment : Type 0
OsEnvironment = Dict String String

-- The `Env` of a command: the variables of the process, then the settings that come after them.
pub record CommandEnv : Type 0 where
  pub inherited : OsEnvironment
  pub settings : List String

-- KerberosEnvironmentWrappedCommand, with the environment that it leaves to the process.
unfoldable pub kerberos_environment_wrapped_command :
    OsEnvironment → CommandEnvironment → OsEnvironment × CommandEnv
kerberos_environment_wrapped_command os environ =
    let os' = erase os (env_var_key krb5ccname) in
    (os', record { inherited = os'; settings = get_setting environ krb5ccname ∷ [] })

unfoldable pub unset_fields : List CommandEnvironmentField → OsEnvironment → OsEnvironment
unset_fields [] os = os
unset_fields (f ∷ fields) os = unset_fields fields (erase os (env_var_key f))

unfoldable pub settings_of : List CommandEnvironmentField → CommandEnvironment → List String
settings_of [] environ = []
settings_of (f ∷ fields) environ = get_setting environ f ∷ settings_of fields environ

-- EnvironmentWrappedCommand
unfoldable pub environment_wrapped_command :
    OsEnvironment → CommandEnvironment → OsEnvironment × CommandEnv
unfolding unset_fields settings_of
environment_wrapped_command os environ =
    let os' = unset_fields all_fields os in
    (os', record { inherited = os'; settings = settings_of all_fields environ })
