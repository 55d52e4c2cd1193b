-- ===== src/TokenPush/Run/Successes.antt =====
-- Which services a run counts as successful.
use managed_tokens.Base.{◌≡◌, refl, String, Bool, true, false, Option, none, some, List, [], ◌∷◌}
use managed_tokens.Base.{◌==◌, ◌||◌, ◌&&◌, if◌then◌else◌, is_none, string_comparable, arith, not}
use managed_tokens.Base.{Bool-cases, inl, inr}
use managed_tokens.Base.Dict.{Dict, lookup, insert, erase, lookup-insert, lookup-erase}
use managed_tokens.TokenPush.Run.{
  ServiceInputs, ServiceConfig, set_up, initial_successes, Workers, Stage, push, start_worker,
  remove_failed, all_present, mark_all, mark_pushed, Settings, returned, returned_error, panicked,
  stops_early, is_empty, kerberos_reports, get_reports, store_reports, finish, token_stages,
  kerberos_stage, run,
}

-- Whether there is a report of the service with the result.
abbrev pub reported : Bool → List (String × Bool) → String → Bool
reported result [] name = false
reported result ((n, ok) ∷ more) name =
    let later = reported result more name in
    if name == n then ((if ok then result else not result) || later) else later

abbrev pub has : Dict String ServiceConfig → String → Bool
has configs name = not (is_none (lookup configs name))

has-remove_failed :
    (reports : List (String × Bool)) (configs : Dict String ServiceConfig) (name : String)
    → lookup (remove_failed reports configs) name
      ≡ (if reported false reports name then none else lookup configs name)
unfolding remove_failed
has-remove_failed [] configs name = refl
has-remove_failed ((n, true) ∷ more) configs name =
    ground (arith, has-remove_failed more configs name)
has-remove_failed ((n, false) ∷ more) configs name =
    ground (arith, has-remove_failed more (erase configs n) name, lookup-erase configs n name)

lookup-mark_all :
    (configs : Dict String ServiceConfig) (m : Dict String Bool) (name : String)
    → lookup (mark_all configs m) name ≡ (if has configs name then some true else lookup m name)
unfolding mark_all lookup
lookup-mark_all [] m name = refl
lookup-mark_all ((n, c) ∷ more) m name =
    ground (arith, lookup-mark_all more (insert m n true) name, lookup-insert m n name true)

lookup-mark_pushed :
    (reports : List (String × Bool)) (m : Dict String Bool) (name : String)
    → lookup (mark_pushed reports m) name
      ≡ (if reported true reports name then some true else lookup m name)
unfolding mark_pushed
lookup-mark_pushed [] m name = refl
lookup-mark_pushed ((n, true) ∷ more) m name =
    ground (arith, lookup-mark_pushed more (insert m n true) name, lookup-insert m n name true)
lookup-mark_pushed ((n, false) ∷ more) m name = ground (arith, lookup-mark_pushed more m name)

empty-has :
    (configs : Dict String ServiceConfig) (name : String)
    → is_empty configs ≡ true
    → has configs name ≡ false
unfolding lookup
empty-has [] name h = refl
empty-has (_ ∷ _) name h = cc

-- The service is in the map of successes, with true.
abbrev pub succeeded : Option Bool → Bool
succeeded none = false
succeeded (some b) = b

no_success_at_first :
    (services : List ServiceInputs) (name : String)
    → succeeded (lookup (initial_successes services) name) ≡ false
unfolding initial_successes lookup
no_success_at_first [] name = refl
no_success_at_first (s ∷ more) name =
    ground (
      arith,
      no_success_at_first more name,
      lookup-insert (initial_successes more) s.name name false,
    )

-- A worker reports a success only of a service that it was given.
abbrev pub ReportsGiven : Workers → Type 0
ReportsGiven w =
    (stage : Stage) (configs : Dict String ServiceConfig) (name : String)
    → reported true (w stage configs) name ≡ true
    → has configs name ≡ true

module _ (s : Settings) (w : Workers) where
  abbrev pub after_kerberos : Dict String ServiceConfig → Dict String ServiceConfig
  after_kerberos configs = remove_failed (kerberos_reports s w configs) configs

  abbrev pub after_tokens : Dict String ServiceConfig → Dict String ServiceConfig
  after_tokens configs =
      remove_failed (store_reports s w configs) (remove_failed (get_reports s w configs) configs)

  started_given :
      (configs : Dict String ServiceConfig) (name : String)
      → ReportsGiven w
      → reported true (start_worker w push configs) name ≡ true
      → has configs name ≡ true
  started_given [] name given h = cc
  started_given (c ∷ configs) name given h = given push (c ∷ configs) name h

  success-finish :
      (configs : Dict String ServiceConfig) (m : Dict String Bool) (name : String)
      → ReportsGiven w
      → succeeded (lookup m name) ≡ false
      → succeeded (lookup (finish s w configs m).successes name)
        ≡ (has configs name && (stops_early s || reported true (start_worker w push configs) name))
  unfolding lookup
  success-finish [] m name given h = ground (arith, lookup-mark_all [] m name)
  success-finish (c ∷ configs) m name given h = ground (
    arith,
    lookup-mark_all (c ∷ configs) m name,
    lookup-mark_pushed (start_worker w push (c ∷ configs)) m name,
    started_given (c ∷ configs) name given,
  )

  -- The service is in none of the failed reports of the two token stages.
  has-after_tokens :
      (configs : Dict String ServiceConfig) (name : String)
      → has (after_tokens configs) name ≡ (
          has configs name
          && (not (reported false (get_reports s w configs) name)
              && not (reported false (store_reports s w configs) name)))
  has-after_tokens configs name = ground (
    arith,
    has-remove_failed (store_reports s w configs) (remove_failed (get_reports s w configs) configs)
        name,
    has-remove_failed (get_reports s w configs) configs name,
  )

  success-token_stages :
      (configs : Dict String ServiceConfig) (m : Dict String Bool) (name : String)
      → ReportsGiven w
      → succeeded (lookup m name) ≡ false
      → (token_stages s w configs m).ending ≡ returned
      → succeeded (lookup (token_stages s w configs m).successes name) ≡ (
          has (after_tokens configs) name
          && (stops_early s || reported true (start_worker w push (after_tokens configs)) name))
  unfolding token_stages
  success-token_stages configs m name given fresh h =
      elim (Bool-cases (all_present (get_reports s w configs) configs)) [
        | inr absent ↦ absurd (let e : panicked ≡ returned = rw absent at h in cc)
        | inl present ↦
            elim (Bool-cases (
              all_present (store_reports s w configs)
                (remove_failed (get_reports s w configs) configs))) [
                  | inr absent ↦
                      absurd (let e : panicked ≡ returned = rw (present, absent) at h in cc)
                  | inl also ↦
                      rw (present, also) (success-finish (after_tokens configs) m name given fresh)
                ]
      ]

  success-kerberos_stage :
      (configs : Dict String ServiceConfig) (m : Dict String Bool) (name : String)
      → ReportsGiven w
      → succeeded (lookup m name) ≡ false
      → (kerberos_stage s w configs m).ending ≡ returned
      → succeeded (lookup (kerberos_stage s w configs m).successes name) ≡ (
          has (after_tokens (after_kerberos configs)) name
          && (stops_early s
              || reported true (start_worker w push (after_tokens (after_kerberos configs))) name))
  unfolding kerberos_stage
  success-kerberos_stage configs m name given fresh h =
      elim (Bool-cases (all_present (kerberos_reports s w configs) configs)) [
        | inr absent ↦ absurd (let e : panicked ≡ returned = rw absent at h in cc)
        | inl present ↦ elim (Bool-cases (is_empty (after_kerberos configs))) [
          | inl empty ↦
              let nothing = empty-has (after_kerberos configs) name empty in
              rw (present, empty) (ground (arith, has-after_tokens (after_kerberos configs) name))
          | inr more ↦
              rw (present, more)
                (success-token_stages (after_kerberos configs) m name given fresh
                  (rw (present, more) at h))
        ]
      ]

  -- A run that returns without an error, of workers that report a success only of services that
  -- they were given, counts a service as successful exactly where it was set up, no worker for
  -- Kerberos tickets or tokens reported a failure of it, and the run stops before the push, in test
  -- or onboarding mode, or the push worker reported a success of it.
  pub run_success :
      (has_database : Bool) (services : List ServiceInputs) (name : String)
      → ReportsGiven w
      → (run s w has_database services).ending ≡ returned
      → let configs = set_up services in
        succeeded (lookup (run s w has_database services).successes name) ≡ (
          has configs name
          && (not (reported false (kerberos_reports s w configs) name)
              && (not (reported false (get_reports s w (after_kerberos configs)) name)
                  && (not (reported false (store_reports s w (after_kerberos configs)) name)
                      && (stops_early s
                          || reported true
                              (start_worker w push (after_tokens (after_kerberos configs)))
                              name)))))
  unfolding run
  run_success false services name given h = elim (Bool-cases (is_empty (set_up services))) [
    | inl empty ↦ absurd (let e : returned_error ≡ returned = rw empty at h in cc)
    | inr more ↦ absurd (let e : panicked ≡ returned = rw more at h in cc)
  ]
  run_success true services name given h = elim (Bool-cases (is_empty (set_up services))) [
    | inl empty ↦ absurd (let e : returned_error ≡ returned = rw empty at h in cc)
    | inr more ↦
        let at_end =
          success-kerberos_stage (set_up services) (initial_successes services) name given
            (no_success_at_first services name) (rw more at h) in
        rw more (
          ground (
            arith,
            at_end,
            has-after_tokens (after_kerberos (set_up services)) name,
            has-remove_failed (kerberos_reports s w (set_up services)) (set_up services) name,
          ))
  ]
