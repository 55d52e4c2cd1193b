-- ===== src/TokenPush/Configuration.antt =====
-- cmd/token-push/config.go: what a service gets from the configuration. Viper is an argument, and so
-- are the functions of Go's library on texts.
pub mod Notifying
pub mod Retries
use managed_tokens.Base.{String, Bool, true, false, Option, none, some, List, [], ◌∷◌, ◌<>◌, not}
use managed_tokens.Base.{◌++◌, ◌==◌, ◌&&◌, if◌then◌else◌, contains, is_none, string_comparable}

-- The configuration, as viper reads it.
pub record Viper : Type 0 where
  pub is_set : String → Bool
  pub get_string : String → String
  pub get_bool : String → Bool

module _ (v : Viper) where
  -- getConfigOverridePath
  unfoldable pub get_config_override_path : String → String → String × Bool
  get_config_override_path path key =
      if v.is_set (path <> "." <> key <> "Override")
      then (path <> "." <> key <> "Override", true)
      else (key, false)

  -- The value at the override, or else at the key.
  abbrev pub get_overridden : String → String → String
  get_overridden path key = v.get_string (get_config_override_path path key).0

  -- getKeytabFromConfiguration; `join` is path.Join.
  unfoldable pub get_keytab_from_configuration : (String → String → String) → String → String
  get_keytab_from_configuration join path =
      let (key, overridden) = get_config_override_path path "keytabPath" in
      if overridden
      then v.get_string key
      else join (v.get_string key) (v.get_string (path <> ".account") <> ".keytab")

  -- getUserPrincipalFromConfiguration; `execute` parses a template and executes it on the account.
  unfoldable pub get_user_principal_from_configuration :
      (String → String → Option String) → String → String
  get_user_principal_from_configuration execute path =
      let (key, overridden) = get_config_override_path path "userPrincipal" in
      if overridden
      then v.get_string key
      else elim (execute (get_overridden path "kerberosPrincipalPattern")
          (v.get_string (path <> ".account"))) [ none ↦ "" | some principal ↦ principal ]

  -- resolveHtgettokenOptsFromConfig; `has_text` is strings.Contains.
  unfoldable pub resolve_htgettoken_opts_from_config : (String → String → Bool) → String → String
  resolve_htgettoken_opts_from_config has_text cred_key =
      let original = v.get_string "ORIG_HTGETTOKENOPTS" in
      if original == ""
      then "--credkey=" <> cred_key
      else if has_text original cred_key
      then original
      else original <> " --credkey=" <> cred_key

  -- getTokenLifetimeStringFromConfiguration
  unfoldable pub get_token_lifetime_string_from_configuration : String
  get_token_lifetime_string_from_configuration =
      if v.is_set "minTokenLifetime" then v.get_string "minTokenLifetime" else "10s"

  -- getUserPrincipalAndHtgettokenoptsFromConfiguration; `without_realm` is the ReplaceAll.
  unfoldable pub get_user_principal_and_htgettokenopts :
      (String → String → Option String)
      → (String → String → Bool)
      → (String → String)
      → String
      → String × String
  get_user_principal_and_htgettokenopts execute has_text without_realm path =
      let principal = get_user_principal_from_configuration execute path in
      let cred_key = without_realm principal in
      if principal == ""
      then (principal, "")
      else if v.is_set "ORIG_HTGETTOKENOPTS"
      then (principal, resolve_htgettoken_opts_from_config has_text cred_key)
      else (
        principal,
        "--vaulttokenminttl=" <> get_token_lifetime_string_from_configuration <> " --credkey="
            <> cred_key,
      )

  -- getCondorCollectorHostFromConfiguration
  unfoldable pub get_condor_collector_host_from_configuration : String → String
  get_condor_collector_host_from_configuration path = get_overridden path "condorCollectorHost"

  -- checkScheddsOverride
  unfoldable pub check_schedds_override : String → Option (List String)
  check_schedds_override path =
      let key = (get_config_override_path path "condorCreddHost").0 in
      if v.is_set key then some (v.get_string key ∷ []) else none

  -- getConstraintFromConfiguration
  unfoldable pub get_constraint_from_configuration : String → String
  get_constraint_from_configuration path =
      let key = (get_config_override_path path "condorScheddConstraint").0 in
      if v.is_set key then v.get_string key else ""

  -- getVaultServer, from the environment variable, the configuration, or what HTCondor says, none
  -- if it cannot be asked; `parse` is parseVaultServerFromEnvSetting, none for its error.
  unfoldable pub get_vault_server :
      (String → Option String) → String → Option String → String → Option String
  get_vault_server parse env condor path =
      let key = (get_config_override_path path "vaultServer").0 in
      if not (env == "")
      then parse env
      else if v.is_set key
      then some (v.get_string key)
      else elim condor [ none ↦ none | some val ↦ parse val ]

  -- getServiceCreddVaultTokenPathRoot
  unfoldable pub get_service_credd_vault_token_path_root : String → String
  get_service_credd_vault_token_path_root path =
      get_overridden path "serviceCreddVaultTokenPathRoot"

  -- getFileCopierOptionsFromConfig; `split` is shlex.Split, whose error is ignored.
  unfoldable pub get_file_copier_options_from_config : (String → List String) → String → List String
  get_file_copier_options_from_config split path = split (get_overridden path "fileCopierOptions")

  -- getPingOptsFromConfig
  unfoldable pub get_ping_opts_from_config : (String → List String) → String → List String
  get_ping_opts_from_config split path = split (get_overridden path "pingOptions")

  -- getSSHOptsFromConfig
  unfoldable pub get_ssh_opts_from_config : (String → List String) → String → List String
  get_ssh_opts_from_config split path = split (get_overridden path "sshOptions")

  -- getDefaultRoleFileDestinationTemplate
  unfoldable pub get_default_role_file_destination_template : String → String
  get_default_role_file_destination_template path =
      let key = (get_config_override_path path "defaultRoleFileDestinationTemplate").0 in
      if v.is_set key then v.get_string key else "/tmp/default_role_{{.Experiment}}_{{.DesiredUID}}"

-- A service: its name by getServiceName, and its path in the configuration.
pub record ConfiguredService : Type 0 where
  pub name : String
  pub path : String

abbrev pub names_of : List ConfiguredService → List String
names_of [] = []
names_of (s ∷ more) = s.name ∷ names_of more

module _ (v : Viper) where
  -- Whether the notifications of a service are disabled.
  unfoldable pub is_disabled : ConfiguredService → Bool
  is_disabled s = v.get_bool (get_config_override_path v s.path "disableNotifications").0

  -- The loop of resolveDisableNotifications, on its two results.
  unfoldable pub resolve_loop : List ConfiguredService → Bool → List String → Bool × List String
  resolve_loop [] admin names = (admin, names)
  resolve_loop (s ∷ more) admin names =
      resolve_loop more
        (if (if is_disabled s then false else v.get_bool "disableNotifications")
          then false
          else admin)
        (if is_disabled s then names ++ s.name ∷ [] else names)

  -- resolveDisableNotifications
  unfoldable pub resolve_disable_notifications : List ConfiguredService → Bool × List String
  resolve_disable_notifications services =
      resolve_loop services (v.get_bool "disableNotifications") []

  -- What run blocks: the notifications to the administrators, and those of the services.
  unfoldable pub blocked : Bool → List ConfiguredService → Bool × List String
  blocked by_flag services =
      if by_flag then (true, names_of services) else resolve_disable_notifications services

  -- Whether run gives a service to registerServiceNotificationsChan, and not to the function that
  -- registers a channel that throws notifications away: the manager of the administrators is there
  -- unless its notifications are blocked. The first registers none where no e-mails are set.
  unfoldable pub registers : Bool → List ConfiguredService → ConfiguredService → Bool
  registers by_flag services s =
      not (contains (blocked by_flag services).1 s.name) && not (blocked by_flag services).0
