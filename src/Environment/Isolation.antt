-- ===== src/Environment/Isolation.antt =====
-- What a wrapped command gets of the environment of the process.
use managed_tokens.Base.{◌≡◌, refl, ◌∙◌, ◌≢◌, String, arith, none, List, ◌∷◌, []}
use managed_tokens.Base.{nat_comparable, string_comparable}
use managed_tokens.Base.Dict.{lookup, erase, lookup-erase}
use managed_tokens.Environment.{
  CommandEnvironmentField, krb5ccname, condor_credd_host, condor_collector_host, htgettoken_opts,
  condor_sec_credential_gettoken_opts, env_var_key, CommandEnvironment, OsEnvironment,
  environment_wrapped_command, unset_fields, all_fields,
}

erase_self : (os : OsEnvironment) (key : String) → lookup (erase os key) key ≡ none
erase_self os key = ground (arith, lookup-erase os key key)

unset_fields_keeps :
    (fields : List CommandEnvironmentField) (os : OsEnvironment) (key : String)
    → lookup os key ≡ none
    → lookup (unset_fields fields os) key ≡ none
unfolding unset_fields
unset_fields_keeps [] os key h = h
unset_fields_keeps (f ∷ fields) os key h =
    unset_fields_keeps fields (erase os (env_var_key f)) key
      (ground (arith, lookup-erase os (env_var_key f) key))

unset_fields_other :
    (fields : List CommandEnvironmentField) (os : OsEnvironment) (key : String)
    → ((f : CommandEnvironmentField) → key ≢ env_var_key f)
    → lookup (unset_fields fields os) key ≡ lookup os key
unfolding unset_fields
unset_fields_other [] os key h = refl
unset_fields_other (f ∷ fields) os key h =
    unset_fields_other fields (erase os (env_var_key f)) key h
    ∙ ground (arith, lookup-erase os (env_var_key f) key, h f)

unset_fields-all :
    (os : OsEnvironment) (f : CommandEnvironmentField)
    → lookup (unset_fields all_fields os) (env_var_key f) ≡ none
unfolding unset_fields
unset_fields-all os krb5ccname =
    unset_fields_keeps
      (condor_credd_host ∷ condor_collector_host ∷ htgettoken_opts
        ∷ condor_sec_credential_gettoken_opts ∷ [])
      _ _ (erase_self os "KRB5CCNAME")
unset_fields-all os condor_credd_host =
    unset_fields_keeps
      (condor_collector_host ∷ htgettoken_opts ∷ condor_sec_credential_gettoken_opts ∷ []) _ _
      (erase_self _ "_condor_CREDD_HOST")
unset_fields-all os condor_collector_host =
    unset_fields_keeps (htgettoken_opts ∷ condor_sec_credential_gettoken_opts ∷ []) _ _
      (erase_self _ "_condor_COLLECTOR_HOST")
unset_fields-all os htgettoken_opts =
    unset_fields_keeps (condor_sec_credential_gettoken_opts ∷ []) _ _
      (erase_self _ "HTGETTOKENOPTS")
unset_fields-all os condor_sec_credential_gettoken_opts =
    erase_self _ "_condor_SEC_CREDENTIAL_GETTOKEN_OPTS"

-- No supported variable of the process reaches a wrapped command except through its settings, and a
-- variable that is not a supported one stays as it was, for the process and for the command.
pub environment_wrapped_command_unset :
    (os : OsEnvironment) (environ : CommandEnvironment) (key : String)
    → ((f : CommandEnvironmentField) → key ≢ env_var_key f)
    → let (os', cmd) = environment_wrapped_command os environ in
      ((f : CommandEnvironmentField) → lookup cmd.inherited (env_var_key f) ≡ none)
      × (lookup cmd.inherited key ≡ lookup os key)
      × (lookup os' key ≡ lookup os key)
unfolding environment_wrapped_command
environment_wrapped_command_unset os environ key h =
    let same = unset_fields_other all_fields os key h in (unset_fields-all os, same, same)
