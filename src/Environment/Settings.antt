-- ===== src/Environment/Settings.antt =====
-- Reading back what was set.
use text.Mathlib.TextLemmas.{append_assoc as text_append_assoc, cons-append, nil-append}
use managed_tokens.Base.{◌≡◌, ◌≢◌, ap, String, ◌<>◌, arith, some}
use managed_tokens.Base.{nat_comparable, string_comparable}
use managed_tokens.Environment.{
  CommandEnvironmentField, krb5ccname, condor_credd_host, condor_collector_host, htgettoken_opts,
  condor_sec_credential_gettoken_opts, env_var_key, KerberosCcacheType, ccache_prefix,
  CommandEnvironment, set_krb5ccname, set_condor_credd_host, set_condor_collector_host,
  set_htgettoken_opts, set_condor_sec_credential_gettoken_opts, get_setting, get_value,
  strip_prefix, trim_prefix,
}

strip_prefix-append : (p s : String) → strip_prefix p (p <> s) ≡ some s
unfolding strip_prefix
strip_prefix-append String.[] s = rw nil-append
strip_prefix-append (String.◌∷◌ c p) s = rw cons-append (ground (arith, strip_prefix-append p s))

-- Reading what was assigned to the variable of a field.
pub trim_prefix-assignment :
    (key value : String) → trim_prefix (key <> ("=" <> value)) (key <> "=") ≡ value
unfolding trim_prefix
trim_prefix-assignment key value =
    rw (← text_append_assoc key "=" value) (ground (arith, strip_prefix-append (key <> "=") value))

-- The setter of each field; the Kerberos cache has a type in front of its value.
abbrev pub set_setting :
    CommandEnvironmentField → KerberosCcacheType → CommandEnvironment → String → CommandEnvironment
set_setting krb5ccname t c v = set_krb5ccname c v t
set_setting condor_credd_host t c v = set_condor_credd_host c v
set_setting condor_collector_host t c v = set_condor_collector_host c v
set_setting htgettoken_opts t c v = set_htgettoken_opts c v
set_setting condor_sec_credential_gettoken_opts t c v = set_condor_sec_credential_gettoken_opts c v

abbrev pub written : CommandEnvironmentField → KerberosCcacheType → String → String
written krb5ccname t v = ccache_prefix t <> v
written condor_credd_host t v = v
written condor_collector_host t v = v
written htgettoken_opts t v = v
written condor_sec_credential_gettoken_opts t v = v

get_value-set_self :
    (f : CommandEnvironmentField) (t : KerberosCcacheType) (c : CommandEnvironment) (v : String)
    → get_value (set_setting f t c v) f ≡ written f t v
unfolding get_value
get_value-set_self krb5ccname t c v = trim_prefix-assignment "KRB5CCNAME" (ccache_prefix t <> v)
get_value-set_self condor_credd_host t c v = trim_prefix-assignment "_condor_CREDD_HOST" v
get_value-set_self condor_collector_host t c v = trim_prefix-assignment "_condor_COLLECTOR_HOST" v
get_value-set_self htgettoken_opts t c v = trim_prefix-assignment "HTGETTOKENOPTS" v
get_value-set_self condor_sec_credential_gettoken_opts t c v =
    trim_prefix-assignment "_condor_SEC_CREDENTIAL_GETTOKEN_OPTS" v

get_setting-set_other :
    (f g : CommandEnvironmentField) (t : KerberosCcacheType) (c : CommandEnvironment) (v : String)
    → f ≢ g
    → get_setting (set_setting f t c v) g ≡ get_setting c g
get_setting-set_other f g t c v h = ground arith

-- `GetValue` returns what the setter of the field was given, with the type of the Kerberos cache in
-- front, and any other field reads as before.
pub get_value-set_setting :
    (f g : CommandEnvironmentField) (t : KerberosCcacheType) (c : CommandEnvironment) (v : String)
    → f ≢ g
    → (get_value (set_setting f t c v) f ≡ written f t v)
      × (get_value (set_setting f t c v) g ≡ get_value c g)
unfolding get_value
get_value-set_setting f g t c v h = (
  get_value-set_self f t c v,
  ap (λ s. trim_prefix s (env_var_key g <> "=")) (get_setting-set_other f g t c v h),
)
