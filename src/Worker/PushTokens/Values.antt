-- ===== src/Worker/PushTokens/Values.antt =====
-- internal/worker/pushTokensWorker.go: the pushes that the configuration of a service gives.
pub mod Source
pub mod Targets
use Prim.Native.String.{compare}
use Prim.Native.Nat.{Ordering}
use managed_tokens.Base.{
  ℕ, String, ◌<>◌, Bool, true, false, ◌&&◌, Option, none, some, List, [], ◌∷◌, ◌++◌,
}
use managed_tokens.Base.{if◌then◌else◌, map}
use managed_tokens.Worker.Config.{Config, push_tokens, is_node_unpingable}
use managed_tokens.Worker.Config.Specific.{
  Result, ok, err, get_worker_num_retries_value_from_config,
  get_worker_retry_sleep_value_from_config,
}
use managed_tokens.Worker.Config.Extras.{
  get_default_role_file_destination_template, get_file_copier_options_from_extras,
  get_ssh_options_from_extras,
}
use managed_tokens.Worker.CreddStore.{get_service_token_for_credd_location}
use managed_tokens.Worker.PushTokens.{PushTokensConfig}

-- The order of Go's strings.
abbrev pub leb_text : String → String → Bool
leb_text s t = elim (compare s t) [ Ordering.lt ↦ true | Ordering.eq ↦ true | Ordering.gt ↦ false ]

unfoldable pub insert_sorted : String → List String → List String
insert_sorted x [] = x ∷ []
insert_sorted x (y ∷ ys) =
    let rest = insert_sorted x ys in if leb_text x y then x ∷ y ∷ ys else y ∷ rest

-- `slices.Sort`
unfoldable pub sort : List String → List String
unfolding insert_sorted
sort [] = []
sort (x ∷ xs) = insert_sorted x (sort xs)

-- What the machine gives: the paths that `os.Stat` finds, the user's UID, `path.Join`, `%d`, the
-- place of HTCondor's token for a service, the text of a template for a configuration, and the file
-- with the default role, if it could be made and written.
pub record Machine : Type 0 where
  pub exists : String → Bool
  pub uid : Option String
  pub join : String → String → String
  pub decimal : ℕ → String
  pub condor_vault_token_location : String → String
  pub execute : String → Config → Option String
  pub default_role_file : Config → Option String

abbrev pub or_else : Option String → Option String → Option String
or_else none o = o
or_else (some p) o = some p

module _ (m : Machine) where
  unfoldable pub first_existing : List String → Option String
  first_existing [] = none
  first_existing (p ∷ ps) = let rest = first_existing ps in if m.exists p then some p else rest

  -- From the sorted credds on.
  unfoldable pub find_among : String → String → List String → Option String
  unfolding first_existing
  find_among token_root_path service_name credds =
      let location = m.condor_vault_token_location service_name in
      or_else
        (first_existing (
          map (get_service_token_for_credd_location m.join m.uid token_root_path service_name)
            credds))
        (if m.exists location then some location else none)

  -- findFirstCreddVaultToken; no list stands for nil.
  unfoldable pub find_first_credd_vault_token :
      String → String → Option (List String) → Option String
  unfolding find_among sort
  find_first_credd_vault_token token_root_path service_name none =
      find_among token_root_path service_name ("" ∷ [])
  find_first_credd_vault_token token_root_path service_name (some []) = none
  find_first_credd_vault_token token_root_path service_name (some (c ∷ credds)) =
      find_among token_root_path service_name (sort (c ∷ credds))

  -- parseDefaultRoleFileDestinationTemplateFromConfig
  abbrev pub parse_default_role_file_destination_template : Config → Option String
  parse_default_role_file_destination_template c =
      let (template, valid) = get_default_role_file_destination_template c in
      if valid then m.execute template c else none

abbrev pub or_default : ℕ → Result ℕ → ℕ
or_default default (ok n) = n
or_default default (err _) = default

-- `defaultRetrySleepDuration`, in nanoseconds
abbrev pub default_retry_sleep_duration : ℕ
default_retry_sleep_duration = 60000000000

-- The push of the vault token to a node.
abbrev pub token_push : Config → String → String → String → PushTokensConfig
token_push c source node destination = record {
  source_path = source;
  node = node;
  account = c.account;
  destination_path = destination;
  unpingable = is_node_unpingable c node;
  file_copier_options = (get_file_copier_options_from_extras c).0;
  ssh_options = (get_ssh_options_from_extras c).0;
  error_on_fail = true;
  num_retries = or_default 0 (get_worker_num_retries_value_from_config c push_tokens);
  retry_sleep_duration =
      or_default default_retry_sleep_duration
        (get_worker_retry_sleep_value_from_config c push_tokens);
  cleanup = false;
}

-- The push of the file with the default role to a node.
abbrev pub role_push : Config → String → String → String → PushTokensConfig
role_push c source node destination = record {
  source_path = source;
  node = node;
  account = c.account;
  destination_path = destination;
  unpingable = is_node_unpingable c node;
  file_copier_options = (get_file_copier_options_from_extras c).0;
  ssh_options = (get_ssh_options_from_extras c).0;
  error_on_fail = false;
  num_retries = 0;
  retry_sleep_duration = 0;
  cleanup = true;
}

-- The pushes to one node. The file with the default role is sent if there are both the file and its
-- destination.
abbrev pub pushes_to :
    Config → String → List String → Option String → Option String → String → List PushTokensConfig
pushes_to c source destinations role_file role_destination node =
    map (token_push c source node) destinations ++ elim role_file [
      | none ↦ []
      | some file ↦ elim role_destination [
        | none ↦ []
        | some destination ↦ role_push c file node destination ∷ []
      ]
    ]

unfoldable pub pushes_to_all :
    (String → List PushTokensConfig) → List String → List PushTokensConfig
pushes_to_all pushes [] = []
pushes_to_all pushes (node ∷ nodes) = pushes node ++ pushes_to_all pushes nodes

-- getPushTokensValuesFromConfig, for a configuration that is not nil.
unfoldable pub get_push_tokens_values_from_config :
    Machine → Config → Option (List PushTokensConfig)
unfolding find_first_credd_vault_token pushes_to_all
get_push_tokens_values_from_config m c =
    let uid : String = m.decimal c.desired_uid in
    let destinations : List String =
      ("/tmp/vt_u" <> uid) ∷ ("/tmp/vt_u" <> (uid <> ("-" <> c.service.name))) ∷ [] in
    elim (find_first_credd_vault_token m c.service_credd_vault_token_path_root c.service.name
      c.schedds) [
        | none ↦ none
        | some source ↦ some (
            pushes_to_all
              (pushes_to c source destinations (m.default_role_file c)
                (parse_default_role_file_destination_template m c))
              c.nodes)
      ]
