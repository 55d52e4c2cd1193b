-- ===== src/TokenPush/Schedds/Once.antt =====
-- Each collector is queried at most once, and the cache has exactly the answers.
use managed_tokens.Base.{◌≡◌, refl, sym, ◌∙◌, String, Option, none, some}
use managed_tokens.Base.{List, [], ◌∷◌, ◌==◌, if◌then◌else◌, string_comparable, arith}
use managed_tokens.Base.Dict.{lookup, lookup-insert}
use managed_tokens.TokenPush.Schedds.{
  ScheddCache, ScheddCacheEntry, Query, populate, use_entry, get_for_hosts, try_collectors,
  ScheddRequest, get_schedds_and_collector_host, empty_cache, lookup_all,
}

-- The constraint with which a collector was queried.
abbrev pub constraint_of : List (String × String) → String → Option String
constraint_of [] host = none
constraint_of ((h, c) ∷ more) host = if host == h then some c else constraint_of more host

abbrev pub NodupHosts : List (String × String) → Type 0
NodupHosts [] = Unit
NodupHosts ((h, _) ∷ more) = (constraint_of more h ≡ none) × NodupHosts more

-- What the cache has for a host: the answer to the query, if there was one.
abbrev pub answer_of : Query → String → Option String → Option ScheddCacheEntry
answer_of query host none = none
answer_of query host (some c) = some (query host c)

-- Each collector was queried at most once, and the cache has exactly the answers.
pub record IsCached (query : Query) (s : ScheddCache) : Type 0 where
  pub once : NodupHosts s.queried
  pub answers :
      (host : String) → lookup s.cache host ≡ answer_of query host (constraint_of s.queried host)

module _ (query : Query) where
  constraint_missing :
      (o : Option String) (host : String) → answer_of query host o ≡ none → o ≡ none
  constraint_missing none host h = refl
  constraint_missing (some c) host h = cc

  populate-IsCached :
      (s : ScheddCache) (constraint host : String) (o : Option ScheddCacheEntry)
      → lookup s.cache host ≡ o
      → IsCached query s
      → IsCached query (populate query s constraint host o).0
  populate-IsCached s constraint host (some entry) there k = k
  populate-IsCached s constraint host none missing k =
      let fresh =
        constraint_missing (constraint_of s.queried host) host (sym (k.answers host) ∙ missing) in
      record {
        once = (fresh, k.once);
        answers =
            λ j. ground (arith, lookup-insert s.cache host j (query host constraint), k.answers j);
      }

  use_entry-IsCached :
      (host : String) (p : ScheddCache × ScheddCacheEntry)
      (rest : ScheddCache × Option (String × List String))
      → IsCached query p.0
      → IsCached query rest.0
      → IsCached query (use_entry host p rest).0
  use_entry-IsCached host (s, none) rest k l = l
  use_entry-IsCached host (s, some schedds) rest k l = k

  pub try_collectors-IsCached :
      (hosts : List String) (s : ScheddCache) (constraint : String)
      → IsCached query s
      → IsCached query (try_collectors query s constraint hosts).0
  unfolding try_collectors
  try_collectors-IsCached [] s constraint k = k
  try_collectors-IsCached (host ∷ hosts) s constraint k =
      let k' = populate-IsCached s constraint host (lookup s.cache host) refl k in
      use_entry-IsCached host (populate query s constraint host (lookup s.cache host)) _ k'
        (try_collectors-IsCached hosts _ constraint k')

  for_hosts-IsCached :
      (s : ScheddCache) (constraint : String) (o : Option String) (hosts : List String)
      → IsCached query s
      → IsCached query (get_for_hosts query s constraint o hosts).0
  for_hosts-IsCached s constraint none [] k = k
  for_hosts-IsCached s constraint (some x) [] k = k
  for_hosts-IsCached s constraint none (host ∷ hosts) k =
      try_collectors-IsCached (host ∷ hosts) s constraint k
  for_hosts-IsCached s constraint (some x) (host ∷ hosts) k = k

  pub get_schedds-IsCached :
      (s : ScheddCache) (r : ScheddRequest)
      → IsCached query s
      → IsCached query (get_schedds_and_collector_host query s r).0
  unfolding get_schedds_and_collector_host
  get_schedds-IsCached s r k =
      for_hosts-IsCached s r.constraint r.schedds_override r.collector_hosts k

  pub lookup_all-IsCached :
      (requests : List ScheddRequest) (s : ScheddCache)
      → IsCached query s
      → IsCached query (lookup_all query s requests)
  unfolding lookup_all
  lookup_all-IsCached [] s k = k
  lookup_all-IsCached (r ∷ more) s k =
      lookup_all-IsCached more (get_schedds_and_collector_host query s r).0
        (get_schedds-IsCached s r k)

  pub empty-IsCached : IsCached query empty_cache
  unfolding lookup
  empty-IsCached = record { once = tt; answers = λ host. refl }
