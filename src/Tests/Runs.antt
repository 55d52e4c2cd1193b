-- ===== src/Tests/Runs.antt =====
-- Runs of cmd/token-push at concrete services and configurations.
use managed_tokens.Base.{◌≡◌, refl, String, true, false, none, some}
use managed_tokens.Base.{[], ◌∷◌, ◌&&◌, ◌||◌, not, ◌==◌, if◌then◌else◌, arith, contains}
use managed_tokens.Base.{nat_comparable, string_comparable, inl}
use managed_tokens.Base.{◌^◌, ◌-◌}
use managed_tokens.Base.Integers.{pos, negsuc, wrapped_product, to_int, to_uint}
use managed_tokens.Base.Dict.{lookup, insert}
use managed_tokens.Worker.Config.{push_tokens}
use managed_tokens.TokenPush.Run.{
  ServiceInputs, store_and_get_token, set_up, set_up_service, push, Workers, remove_failed,
  all_present, only_get, Settings, returned, stops_early, kerberos_reports, get_reports,
  store_reports, start_worker, token_stages, kerberos_stage, run,
}
use managed_tokens.TokenPush.Run.Successes.{
  reported, has, ReportsGiven, succeeded, after_kerberos, after_tokens, run_success,
}
use managed_tokens.TokenPush.Schedds.{
  Query, ScheddRequest, try_collectors, get_schedds_and_collector_host, lookup_all, empty_cache,
}
use managed_tokens.TokenPush.Schedds.Once.{NodupHosts}
use managed_tokens.TokenPush.Schedds.Cached.{IsExplained, schedds_queried_once}
use managed_tokens.TokenPush.Configuration.{
  Viper, ConfiguredService, get_config_override_path, is_disabled, registers,
}
use managed_tokens.TokenPush.Configuration.Notifying.{disabled_names, registers_lem}
use managed_tokens.TokenPush.Configuration.Retries.{
  RetryInfo, retry_args, worker_retry_map, create_worker_retry_map, retry_loop,
  get_and_check_retry_info, check_retry_timeout,
}
use managed_tokens.TokenPush.Configuration.Retries.Checks.{IsFitting}
use managed_tokens.TokenPush.Configuration.Retries.Fitting.{
  HasEntry, timeout_of, worker_retry_map_fits,
}

abbrev dune : ServiceInputs
dune = record {
  name = "dune_production";
  cache_created = true;
  has_uid = true;
  user_principal = "duneana@FNAL.GOV";
  vault_server = some "vault";
  token_getter = store_and_get_token;
  schedds = some ("schedd1" ∷ []);
  nodes = "node1" ∷ [];
  config_created = true;
}

-- A service for which no vault server is found.
abbrev mu2e : ServiceInputs
mu2e = record dune { name = "mu2e_analysis"; vault_server = none }

-- Each worker reports a success of the first service that it is given.
first_succeeds : Workers
first_succeeds stage [] = []
first_succeeds stage ((name, _) ∷ _) = (name, true) ∷ []

first_succeeds-ReportsGiven : ReportsGiven first_succeeds
unfolding first_succeeds lookup
first_succeeds-ReportsGiven stage [] name h = cc
first_succeeds-ReportsGiven stage ((n, c) ∷ more) name h = ground arith

abbrev to_push : Settings
to_push = record { test = false; run_onboarding = false; push_tokens = true }

returns_for_dune : (run to_push first_succeeds true (dune ∷ mu2e ∷ [])).ending ≡ returned
unfolding run kerberos_stage token_stages set_up set_up_service insert first_succeeds remove_failed
    all_present only_get string_comparable
returns_for_dune = refl

run_success_example :
    let services = dune ∷ mu2e ∷ [] in
    let configs = set_up services in
    let s = to_push in
    let w = first_succeeds in
    succeeded (lookup (run s w true services).successes "dune_production") ≡ (
      has configs "dune_production"
      && (not (reported false (kerberos_reports s w configs) "dune_production")
          && (not (reported false (get_reports s w (after_kerberos s w configs)) "dune_production")
              && (not (
                    reported false
                      (store_reports s w (after_kerberos s w configs))
                      "dune_production")
                  && (stops_early s
                      || reported true
                          (start_worker w push (after_tokens s w (after_kerberos s w configs)))
                          "dune_production")))))
run_success_example =
    run_success to_push first_succeeds true (dune ∷ mu2e ∷ []) "dune_production"
      first_succeeds-ReportsGiven returns_for_dune

-- The first collector does not answer.
abbrev second_answers : Query
second_answers host constraint = if host == "collector2" then some ("schedd1" ∷ []) else none

abbrev both : String → ScheddRequest
both constraint = record {
  collector_hosts = "collector1" ∷ "collector2" ∷ [];
  schedds_override = none;
  constraint = constraint;
}

found_again :
    (get_schedds_and_collector_host second_answers
      (lookup_all second_answers empty_cache (both "A" ∷ []))
      (both "B")).1
    ≡ some ("collector2", "schedd1" ∷ [])
unfolding get_schedds_and_collector_host lookup_all try_collectors lookup insert string_comparable
found_again = refl

schedds_queried_once_example :
    let found =
      get_schedds_and_collector_host second_answers
        (lookup_all second_answers empty_cache (both "A" ∷ []))
        (both "B") in
    NodupHosts found.0.queried × IsExplained second_answers none (both "B").collector_hosts found
schedds_queried_once_example = schedds_queried_once second_answers (both "A" ∷ []) (both "B")

-- The second lookup has another constraint, and gets the answer for the first.
found_for_first :
    (get_schedds_and_collector_host second_answers
      (lookup_all second_answers empty_cache (both "A" ∷ []))
      (both "B")).0.queried
    ≡ ("collector2", "A") ∷ ("collector1", "A") ∷ []
unfolding get_schedds_and_collector_host lookup_all try_collectors lookup insert string_comparable
found_for_first = refl

-- Notifications are disabled globally, and enabled for one service.
abbrev one_enabled : Viper
one_enabled = record {
  is_set = λ key. key == "experiments.dune.roles.production.disableNotificationsOverride";
  get_string = λ _. "";
  get_bool = λ key. key == "disableNotifications";
}

abbrev dune_service : ConfiguredService
dune_service = record { name = "dune_production"; path = "experiments.dune.roles.production" }

abbrev mu2e_service : ConfiguredService
mu2e_service = record { name = "mu2e_analysis"; path = "experiments.mu2e.roles.analysis" }

registers_lem_example :
    registers one_enabled false (dune_service ∷ mu2e_service ∷ []) dune_service ≡ (
      not false
      && not (
          contains
            (disabled_names one_enabled (dune_service ∷ mu2e_service ∷ []))
            "dune_production"))
registers_lem_example =
    registers_lem one_enabled false (dune_service ∷ mu2e_service ∷ []) dune_service (inl refl)

dune_registered :
    disabled_names one_enabled (dune_service ∷ mu2e_service ∷ []) ≡ "mu2e_analysis" ∷ []
unfolding is_disabled get_config_override_path string_comparable
dune_registered = refl

-- Two retries after ten units each, for every worker.
abbrev two_retries : RetryInfo
two_retries _ = record { num_retries = pos 2; retry_sleep = pos 10 }

push_retries :
    lookup
      (worker_retry_map two_retries (retry_args (pos 20) (pos 60) (pos 30) (pos 40)))
      push_tokens
    ≡ some (record { num_retries = 2; retry_sleep = pos 10 })
unfolding lookup worker_retry_map create_worker_retry_map retry_loop get_and_check_retry_info
    check_retry_timeout insert nat_comparable wrapped_product to_int to_uint
push_retries = refl

worker_retry_map_fits_example :
    let args = retry_args (pos 20) (pos 60) (pos 30) (pos 40) in
    IsFitting two_retries args
      (timeout_of args push_tokens)
      push_tokens
      (record { num_retries = 2; retry_sleep = pos 10 })
    × HasEntry (worker_retry_map two_retries args) push_tokens
worker_retry_map_fits_example =
    worker_retry_map_fits two_retries (pos 20) (pos 60) (pos 30) (pos 40) push_tokens
      (record { num_retries = 2; retry_sleep = pos 10 })
      (λ u. (omega arith, omega arith, omega arith)) push_retries

-- One retry less than none passes the check, and is stored as the largest uint.
abbrev negative_retries : RetryInfo
negative_retries _ = record { num_retries = negsuc 0; retry_sleep = pos 10 }

negative_retries_accepted :
    lookup
      (worker_retry_map negative_retries (retry_args (pos 20) (pos 60) (pos 30) (pos 40)))
      push_tokens
    ≡ some (record { num_retries = 2 ^ 64 - 1; retry_sleep = pos 10 })
unfolding lookup worker_retry_map create_worker_retry_map retry_loop get_and_check_retry_info
    check_retry_timeout insert nat_comparable wrapped_product to_int to_uint
negative_retries_accepted = refl

-- A product of 2 ^ 63 is negative as an int64, and passes the check.
overflow_accepted : check_retry_timeout (pos (2 ^ 62)) (pos 2) (pos 10) ≡ true
unfolding check_retry_timeout wrapped_product to_int to_uint
overflow_accepted = refl
