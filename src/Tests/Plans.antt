-- ===== src/Tests/Plans.antt =====
-- Which token is pushed and where, for a concrete configuration.
use managed_tokens.Base.{◌≡◌, ◌↔◌, refl, String, ◌<>◌, true, false, Option, none, some}
use managed_tokens.Base.{List, [], ◌∷◌, ◌==◌, string_comparable}
use managed_tokens.Base.Lists.{All}
use managed_tokens.Worker.Config.{Config}
use managed_tokens.Worker.Config.Options.{initial_config}
use managed_tokens.Worker.PushTokens.{PushTokensConfig}
use managed_tokens.Worker.PushTokens.Values.{
  Machine, find_first_credd_vault_token, get_push_tokens_values_from_config,
}
use managed_tokens.Worker.PushTokens.Values.Source.{
  IsFound, some_token, find_first_credd_vault_token-IsFound,
}
use managed_tokens.Worker.PushTokens.Values.Targets.{
  places_at, repeated, token_places, role_places, times, IsPlanned,
  get_push_tokens_values-IsPlanned,
}

abbrev condor : String
condor = "/tmp/vt_u1000-dune"

-- A machine that has only HTCondor's token.
abbrev machine : Machine
machine = record {
  exists = λ p. p == condor;
  uid = some "1000";
  join = λ a b. a <> ("/" <> b);
  decimal = λ _. "1000";
  condor_vault_token_location = λ _. condor;
  execute = λ _ _. none;
  default_role_file = λ _. none;
}

find_first_credd_vault_token-IsFound_example :
    IsFound machine (find_first_credd_vault_token machine "/var" "dune" (some ("credd1" ∷ [])))
    ↔ (some_token machine "/var" "dune" (some ("credd1" ∷ [])) ≡ true)
find_first_credd_vault_token-IsFound_example =
    find_first_credd_vault_token-IsFound machine "/var" "dune" (some ("credd1" ∷ []))

abbrev one_node : Config
one_node =
    record (initial_config (record { name = "dune"; experiment = "dune"; role = "Analysis" })) {
      nodes = "node1" ∷ [];
    }

abbrev or_no_pushes : Option (List PushTokensConfig) → List PushTokensConfig
or_no_pushes none = []
or_no_pushes (some pcs) = pcs

abbrev planned : List PushTokensConfig
planned = or_no_pushes (get_push_tokens_values_from_config machine one_node)

planned_pushes : get_push_tokens_values_from_config machine one_node ≡ some planned
unfolding get_push_tokens_values_from_config initial_config string_comparable
planned_pushes = refl

get_push_tokens_values-IsPlanned_example :
    (places_at true "node1" planned
      ≡ repeated (times "node1" one_node.nodes) (token_places machine one_node))
    × (places_at false "node1" planned
        ≡ repeated (times "node1" one_node.nodes) (role_places machine one_node))
    × ((source : String) × (find_first_credd_vault_token machine
            one_node.service_credd_vault_token_path_root one_node.service.name one_node.schedds
          ≡ some source)
        × All (IsPlanned one_node source (machine.default_role_file one_node)) planned)
get_push_tokens_values-IsPlanned_example =
    get_push_tokens_values-IsPlanned machine one_node planned "node1" planned_pushes
