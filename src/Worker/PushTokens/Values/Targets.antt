-- ===== src/Worker/PushTokens/Values/Targets.antt =====
-- Which pushes a configuration gives.
use managed_tokens.Base.{
  ℕ, zero, suc, ◌≡◌, refl, ◌∙◌, String, Bool, true, false, Option, none, some,
}
use managed_tokens.Base.{
  List, [], ◌∷◌, ◌++◌, if◌then◌else◌, ◌==◌, string_comparable, arith, Option-cases, inl, inr,
  Bool-cases, ◌<>◌,
}
use managed_tokens.Base.Lists.{All, All-append}
use managed_tokens.Worker.Config.{Config, is_node_unpingable}
use managed_tokens.Worker.PushTokens.{PushTokensConfig}
use managed_tokens.Worker.PushTokens.Values.{
  Machine, find_first_credd_vault_token, parse_default_role_file_destination_template, pushes_to,
  pushes_to_all, get_push_tokens_values_from_config,
}

-- The destinations of the pushes to a node that count as failures if they fail, or that do not.
abbrev pub places_at : Bool → String → List PushTokensConfig → List String
places_at counts node [] = []
places_at counts node (pc ∷ pcs) =
    let rest = places_at counts node pcs in
    if node == pc.node
    then if counts
      then (if pc.error_on_fail then pc.destination_path ∷ rest else rest)
      else (if pc.error_on_fail then rest else pc.destination_path ∷ rest)
    else rest

abbrev pub repeated : ℕ → List String → List String
repeated zero places = []
repeated (suc k) places = places ++ repeated k places

-- How often a node is named.
abbrev pub times : String → List String → ℕ
times node [] = 0
times node (n ∷ nodes) = let rest = times node nodes in if node == n then suc rest else rest

-- Where the file with the default role is sent, if it is sent.
abbrev pub role_places : Machine → Config → List String
role_places m c = elim (m.default_role_file c) [
  | none ↦ []
  | some _ ↦ elim (parse_default_role_file_destination_template m c) [
    | none ↦ []
    | some destination ↦ destination ∷ []
  ]
]

-- The two places of the vault token, by the UID alone and with the name of the service.
abbrev pub token_places : Machine → Config → List String
token_places m c =
    ("/tmp/vt_u" <> m.decimal c.desired_uid)
    ∷ ("/tmp/vt_u" <> (m.decimal c.desired_uid <> ("-" <> c.service.name)))
    ∷ []

places_at-append :
    (counts : Bool) (node : String) (xs ys : List PushTokensConfig)
    → places_at counts node (xs ++ ys) ≡ places_at counts node xs ++ places_at counts node ys
places_at-append counts node [] ys = refl
places_at-append counts node (x ∷ xs) ys = ground (arith, places_at-append counts node xs ys)

places_at-all :
    (counts : Bool) (node : String) (places : List String) (pushes : String → List PushTokensConfig)
    → ((n : String) → places_at counts node (pushes n) ≡ (if node == n then places else []))
    → (nodes : List String)
    → places_at counts node (pushes_to_all pushes nodes) ≡ repeated (times node nodes) places
unfolding pushes_to_all
places_at-all counts node places pushes h [] = refl
places_at-all counts node places pushes h (n ∷ nodes) =
    let both = places_at-append counts node (pushes n) (pushes_to_all pushes nodes) in
    let more = places_at-all counts node places pushes h nodes in
    elim (Bool-cases (node == n)) [
      | inl named ↦ both ∙ rw (h n, named, more) refl
      | inr other ↦ both ∙ rw (h n, other, more) refl
    ]

-- A push as it is planned: one that counts takes the vault token, and one that does not takes the
-- file with the default role, which is removed afterwards, without retries.
abbrev pub IsPlanned : Config → String → Option String → PushTokensConfig → Type 0
IsPlanned c source file pc =
    (pc.unpingable ≡ is_node_unpingable c pc.node)
    × (pc.account ≡ c.account)
    × (if pc.error_on_fail
        then (pc.source_path ≡ source) × (pc.cleanup ≡ false)
        else (file ≡ some pc.source_path) × (pc.cleanup ≡ true) × (pc.num_retries ≡ 0))

pushes_to-IsPlanned :
    (c : Config) (source d1 d2 : String) (file destination : Option String) (n : String)
    → All (IsPlanned c source file) (pushes_to c source (d1 ∷ d2 ∷ []) file destination n)
pushes_to-IsPlanned c source d1 d2 none destination n =
    ((refl, refl, (refl, refl)), ((refl, refl, (refl, refl)), tt))
pushes_to-IsPlanned c source d1 d2 (some f) none n =
    ((refl, refl, (refl, refl)), ((refl, refl, (refl, refl)), tt))
pushes_to-IsPlanned c source d1 d2 (some f) (some d) n = (
  (refl, refl, (refl, refl)),
  ((refl, refl, (refl, refl)), ((refl, refl, (refl, refl, refl)), tt)),
)

pushes_to_all-IsPlanned :
    (c : Config) (source : String) (file : Option String) (pushes : String → List PushTokensConfig)
    → ((n : String) → All (IsPlanned c source file) (pushes n))
    → (nodes : List String) → All (IsPlanned c source file) (pushes_to_all pushes nodes)
unfolding pushes_to_all
pushes_to_all-IsPlanned c source file pushes h [] = tt
pushes_to_all-IsPlanned c source file pushes h (n ∷ nodes) =
    All-append (IsPlanned c source file) (pushes n) (pushes_to_all pushes nodes) (h n)
      (pushes_to_all-IsPlanned c source file pushes h nodes)

module _ (m : Machine) (c : Config) where
  abbrev role_file : Option String
  role_file = m.default_role_file c

  abbrev role_destination : Option String
  role_destination = parse_default_role_file_destination_template m c

  tokens_at-pushes_to :
      (source d1 d2 node n : String)
      → places_at true node (pushes_to c source (d1 ∷ d2 ∷ []) role_file role_destination n)
        ≡ (if node == n then d1 ∷ d2 ∷ [] else [])
  tokens_at-pushes_to source d1 d2 node n = ground arith

  roles_at-pushes_to :
      (source d1 d2 node n : String)
      → places_at false node (pushes_to c source (d1 ∷ d2 ∷ []) role_file role_destination n)
        ≡ (if node == n then role_places m c else [])
  roles_at-pushes_to source d1 d2 node n = ground arith

  -- The pushes of a configuration: there is a vault token to push, every node gets it at /tmp/vt_u<uid>
  -- and at /tmp/vt_u<uid>-<service> each time it is named, and the file with the default role at its
  -- destination once if the file and its destination could be made. A failure counts for the vault
  -- token only, and the file with the default role is pushed without retries and removed afterwards.
  pub get_push_tokens_values-IsPlanned :
      (pcs : List PushTokensConfig) (node : String)
      → get_push_tokens_values_from_config m c ≡ some pcs
      → (places_at true node pcs ≡ repeated (times node c.nodes) (token_places m c))
        × (places_at false node pcs ≡ repeated (times node c.nodes) (role_places m c))
        × ((source : String) × (find_first_credd_vault_token m c.service_credd_vault_token_path_root
                c.service.name c.schedds
              ≡ some source)
            × All (IsPlanned c source (m.default_role_file c)) pcs)
  unfolding get_push_tokens_values_from_config
  get_push_tokens_values-IsPlanned pcs node h =
      elim (Option-cases (
        find_first_credd_vault_token m c.service_credd_vault_token_path_root c.service.name
          c.schedds)) [
            | inl missing ↦ ground arith
            | inr (source, there) ↦
                let file = m.default_role_file c in
                let destination = parse_default_role_file_destination_template m c in
                let uid : String = m.decimal c.desired_uid in
                let d1 : String = "/tmp/vt_u" <> uid in
                let d2 : String = "/tmp/vt_u" <> (uid <> ("-" <> c.service.name)) in
                let pushes = pushes_to c source (d1 ∷ d2 ∷ []) file destination in
                let e : pcs ≡ pushes_to_all pushes c.nodes = ground arith in
                (
                  rw e (
                      places_at-all true node (token_places m c) pushes
                        (tokens_at-pushes_to source d1 d2 node) c.nodes),
                  rw e (
                      places_at-all false node (role_places m c) pushes
                        (roles_at-pushes_to source d1 d2 node) c.nodes),
                  (
                    source,
                    there,
                    rw e (
                        pushes_to_all-IsPlanned c source file pushes
                          (pushes_to-IsPlanned c source d1 d2 file destination) c.nodes),
                  ),
                )
          ]
