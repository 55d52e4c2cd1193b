-- ===== src/TokenPush/Configuration/Notifying.antt =====
-- Which services are registered for notifications.
use managed_tokens.Base.{
  ◌≡◌, refl, sym, ap, ◌∙◌, String, Bool, true, false, List, [], ◌∷◌, ◌++◌, not,
}
use managed_tokens.Base.{◌&&◌, ◌||◌, ◌⊎◌, inl, inr, if◌then◌else◌, contains, arith}
use managed_tokens.Base.{string_comparable, Bool-cases}
use mathlib.Core.List.{append-nil, append_assoc}
use managed_tokens.TokenPush.Configuration.{
  Viper, ConfiguredService, is_disabled, resolve_loop, resolve_disable_notifications, names_of,
  blocked, registers,
}

-- The service is in the list.
abbrev pub Among : ConfiguredService → List ConfiguredService → Type 0
Among s [] = ⊥
Among s (t ∷ more) = (s ≡ t) ⊎ Among s more

flagged :
    (services : List ConfiguredService) (s : ConfiguredService)
    → Among s services
    → contains (names_of services) s.name ≡ true
flagged [] s among = elim among [ ]
flagged (t ∷ more) s (inl e) = let e' : s.name ≡ t.name = ap (λ x. x.name) e in ground arith
flagged (t ∷ more) s (inr later) = ground (arith, flagged more s later)

module _ (v : Viper) where
  abbrev pub disabled_names : List ConfiguredService → List String
  disabled_names [] = []
  disabled_names (s ∷ more) =
      let rest = disabled_names more in if is_disabled v s then s.name ∷ rest else rest

  abbrev pub all_disabled : List ConfiguredService → Bool
  all_disabled [] = true
  all_disabled (s ∷ more) = let rest = all_disabled more in if is_disabled v s then rest else false

  names_step :
      (off : Bool) (names : List String) (name : String) (rest : List String)
      → (if off then names ++ name ∷ [] else names) ++ rest
        ≡ names ++ (if off then name ∷ rest else rest)
  names_step true names name rest = append_assoc names (name ∷ []) rest
  names_step false names name rest = refl

  admin_step :
      (off global admin rest : Bool)
      → ((if (if off then false else global) then false else admin) && (not global || rest))
        ≡ (admin && (not global || (if off then rest else false)))
  admin_step true global admin rest = refl
  admin_step false true true rest = refl
  admin_step false true false rest = refl
  admin_step false false admin rest = refl

  -- resolveDisableNotifications names the services whose notifications are disabled, and disables
  -- those of the administrators where they are disabled for every service and globally.
  resolve_loop_lem :
      (services : List ConfiguredService) (admin : Bool) (names : List String)
      → ((resolve_loop v services admin names).1 ≡ names ++ disabled_names services)
        × ((resolve_loop v services admin names).0
            ≡ (admin && (not (v.get_bool "disableNotifications") || all_disabled services)))
  unfolding resolve_loop
  resolve_loop_lem [] admin names = (sym (append-nil names), ground arith)
  resolve_loop_lem (s ∷ more) admin names =
      let (at_names, at_admin) = resolve_loop_lem more _ _ in
      (
        at_names ∙ names_step (is_disabled v s) names s.name (disabled_names more),
        at_admin
            ∙ admin_step (is_disabled v s) (v.get_bool "disableNotifications") admin
                (all_disabled more),
      )

  disabled-Among :
      (services : List ConfiguredService) (s : ConfiguredService)
      → Among s services
      → contains (disabled_names services) s.name ≡ false
      → all_disabled services ≡ false
  disabled-Among [] s among h = elim among [ ]
  disabled-Among (t ∷ more) s (inl e) h = elim (Bool-cases (is_disabled v t)) [
    | inl off ↦ absurd (let e' : s.name ≡ t.name = ap (λ x. x.name) e in ground arith)
    | inr on ↦ rw on refl
  ]
  disabled-Among (t ∷ more) s (inr later) h = elim (Bool-cases (is_disabled v t)) [
    | inl off ↦ rw off (disabled-Among more s later (ground arith))
    | inr on ↦ rw on refl
  ]

  pub registers_lem :
      (by_flag : Bool) (services : List ConfiguredService) (s : ConfiguredService)
      → Among s services
      → registers v by_flag services s
        ≡ (not by_flag && not (contains (disabled_names services) s.name))
  unfolding registers blocked resolve_disable_notifications
  registers_lem true services s among = ground (arith, flagged services s among)
  registers_lem false services s among =
      let (at_names, at_admin) = resolve_loop_lem services (v.get_bool "disableNotifications") [] in
      ground (arith, disabled-Among services s among)
