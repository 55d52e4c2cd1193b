-- ===== src/TokenPush/Schedds/Cached.antt =====
-- What a lookup of the schedds returns, after any others.
use managed_tokens.Base.{◌≡◌, refl, sym, ◌∙◌, String, Option, none, some}
use managed_tokens.Base.{List, [], ◌∷◌, string_comparable, arith, ◌⊎◌, inl, inr, Option-cases}
use mathlib.Core.Option.{some-injective}
use managed_tokens.Base.Lists.{All}
use managed_tokens.Base.Dict.{lookup, lookup-insert}
use managed_tokens.TokenPush.Schedds.{
  ScheddCache, ScheddCacheEntry, Query, populate, use_entry, get_for_hosts, try_collectors,
  ScheddRequest, get_schedds_and_collector_host, empty_cache, lookup_all,
}
use managed_tokens.TokenPush.Schedds.Once.{
  constraint_of, NodupHosts, answer_of, IsCached, try_collectors-IsCached, get_schedds-IsCached,
  lookup_all-IsCached, empty-IsCached,
}

module _ (query : Query) where
  -- What a lookup returns is in the cache.
  abbrev AreInCache : ScheddCache × Option (String × List String) → Type 0
  AreInCache (s, none) = Unit
  AreInCache (s, some (host, schedds)) = lookup s.cache host ≡ some (some schedds)

  populate_there :
      (s : ScheddCache) (constraint host : String) (o : Option ScheddCacheEntry)
      → lookup s.cache host ≡ o
      → lookup (populate query s constraint host o).0.cache host
        ≡ some (populate query s constraint host o).1
  populate_there s constraint host (some entry) there = there
  populate_there s constraint host none missing =
      ground (arith, lookup-insert s.cache host host (query host constraint))

  use_entry-AreInCache :
      (host : String) (p : ScheddCache × ScheddCacheEntry)
      (rest : ScheddCache × Option (String × List String))
      → lookup p.0.cache host ≡ some p.1
      → AreInCache rest
      → AreInCache (use_entry host p rest)
  use_entry-AreInCache host (s, none) rest there k = k
  use_entry-AreInCache host (s, some schedds) rest there k = there

  try_collectors-AreInCache :
      (hosts : List String) (s : ScheddCache) (constraint : String)
      → AreInCache (try_collectors query s constraint hosts)
  unfolding try_collectors
  try_collectors-AreInCache [] s constraint = tt
  try_collectors-AreInCache (host ∷ hosts) s constraint =
      use_entry-AreInCache host (populate query s constraint host (lookup s.cache host)) _
        (populate_there s constraint host (lookup s.cache host) refl)
        (try_collectors-AreInCache hosts _ constraint)

  asked_for :
      (host : String) (schedds : List String) (asked o : Option String)
      → asked ≡ o
      → some (some schedds) ≡ answer_of query host o
      → (c : String) × (asked ≡ some c) × (query host c ≡ some schedds)
  asked_for host schedds asked none e h = cc
  asked_for host schedds asked (some c) e h = (c, e, sym (some-injective _ _ h))

  from_cache :
      (p : ScheddCache × Option (String × List String)) (host : String) (schedds : List String)
      → AreInCache p
      → IsCached query p.0
      → p.1 ≡ some (host, schedds)
      → (c : String) × (constraint_of p.0.queried host ≡ some c) × (query host c ≡ some schedds)
  from_cache (s, none) host schedds there k h = cc
  from_cache (s, some (found, found_schedds)) host schedds there k h =
      let there' : lookup s.cache host ≡ some (some schedds) = ground arith in
      asked_for host schedds (constraint_of s.queried host) _ refl (sym there' ∙ k.answers host)

  -- The schedds that were found without an override are what the collector answered, with the
  -- constraint with which it was queried.
  for_hosts_answer :
      (s : ScheddCache) (constraint : String) (hosts : List String) (host : String)
      (schedds : List String)
      → IsCached query s
      → (get_for_hosts query s constraint none hosts).1 ≡ some (host, schedds)
      → (c : String) × (constraint_of (get_for_hosts query s constraint none hosts).0.queried host
          ≡ some c)
        × (query host c ≡ some schedds)
  for_hosts_answer s constraint [] host schedds k h = cc
  for_hosts_answer s constraint (first ∷ hosts) host schedds k h =
      from_cache (try_collectors query s constraint (first ∷ hosts)) host schedds
        (try_collectors-AreInCache (first ∷ hosts) s constraint)
        (try_collectors-IsCached query (first ∷ hosts) s constraint k) h

  keeps-populate :
      (s : ScheddCache) (constraint host : String) (o : Option ScheddCacheEntry) (j : String)
      (entry : ScheddCacheEntry)
      → lookup s.cache host ≡ o
      → lookup s.cache j ≡ some entry
      → lookup (populate query s constraint host o).0.cache j ≡ some entry
  keeps-populate s constraint host (some found) j entry there h = h
  keeps-populate s constraint host none j entry missing h =
      ground (arith, lookup-insert s.cache host j (query host constraint))

  keeps-use_entry :
      (host : String) (p : ScheddCache × ScheddCacheEntry)
      (rest : ScheddCache × Option (String × List String)) (j : String) (entry : ScheddCacheEntry)
      → lookup p.0.cache j ≡ some entry
      → lookup rest.0.cache j ≡ some entry
      → lookup (use_entry host p rest).0.cache j ≡ some entry
  keeps-use_entry host (s, none) rest j entry h k = k
  keeps-use_entry host (s, some schedds) rest j entry h k = h

  keeps-try_collectors :
      (hosts : List String) (s : ScheddCache) (constraint j : String) (entry : ScheddCacheEntry)
      → lookup s.cache j ≡ some entry
      → lookup (try_collectors query s constraint hosts).0.cache j ≡ some entry
  unfolding try_collectors
  keeps-try_collectors [] s constraint j entry h = h
  keeps-try_collectors (host ∷ hosts) s constraint j entry h =
      let kept = keeps-populate s constraint host (lookup s.cache host) j entry refl h in
      keeps-use_entry host (populate query s constraint host (lookup s.cache host)) _ j entry kept
        (keeps-try_collectors hosts _ constraint j entry kept)

  -- The cache has an error for the collector.
  abbrev HasError : ScheddCache → String → Type 0
  HasError s host = lookup s.cache host ≡ some none

  use_entry-HasError :
      (host : String) (p : ScheddCache × ScheddCacheEntry)
      (rest : ScheddCache × Option (String × List String)) (hosts : List String)
      → lookup p.0.cache host ≡ some p.1
      → (HasError p.0 host → HasError rest.0 host)
      → (rest.1 ≡ none → All (HasError rest.0) hosts)
      → (use_entry host p rest).1 ≡ none
      → All (HasError (use_entry host p rest).0) (host ∷ hosts)
  use_entry-HasError host (s, none) rest hosts there keeps later h = (keeps there, later h)
  use_entry-HasError host (s, some schedds) rest hosts there keeps later h = cc

  try_collectors-HasError :
      (hosts : List String) (s : ScheddCache) (constraint : String)
      → (try_collectors query s constraint hosts).1 ≡ none
      → All (HasError (try_collectors query s constraint hosts).0) hosts
  unfolding try_collectors
  try_collectors-HasError [] s constraint h = tt
  try_collectors-HasError (host ∷ hosts) s constraint h =
      let p = populate query s constraint host (lookup s.cache host) in
      use_entry-HasError host p (try_collectors query p.0 constraint hosts) hosts
        (populate_there s constraint host (lookup s.cache host) refl)
        (keeps-try_collectors hosts p.0 constraint host none)
        (try_collectors-HasError hosts p.0 constraint) h

  -- The collector was queried, and its one query failed.
  abbrev pub HasFailed : ScheddCache → String → Type 0
  HasFailed s host = (c : String) × (constraint_of s.queried host ≡ some c) × (query host c ≡ none)

  failed_with :
      (host : String) (asked o : Option String)
      → asked ≡ o
      → some none ≡ answer_of query host o
      → (c : String) × (asked ≡ some c) × (query host c ≡ none)
  failed_with host asked none e h = cc
  failed_with host asked (some c) e h = (c, e, sym (some-injective _ _ h))

  all-HasFailed :
      (s : ScheddCache) (hosts : List String)
      → IsCached query s
      → All (HasError s) hosts
      → All (HasFailed s) hosts
  all-HasFailed s [] k h = tt
  all-HasFailed s (host ∷ hosts) k (first, h) = (
    failed_with host (constraint_of s.queried host) _ refl (sym first ∙ k.answers host),
    all-HasFailed s hosts k h,
  )

  -- What a lookup with this override and these collectors returns: nothing, where there are no
  -- collectors, or where there is no override and every collector's one query failed; the override; or
  -- the answer of a collector to its one query.
  abbrev pub IsExplained :
      Option String → List String → ScheddCache × Option (String × List String) → Type 0
  IsExplained o hosts p =
      ((hosts ≡ []) × (p.1 ≡ none))
      ⊎ ((o ≡ none) × (p.1 ≡ none) × All (HasFailed p.0) hosts)
      ⊎ ((host : String) × (schedd : String) × (o ≡ some schedd) × (p.1 ≡ some (host, schedd ∷ [])))
      ⊎ ((host : String) × (schedds : List String) × (c : String) × (o ≡ none)
          × (p.1 ≡ some (host, schedds))
          × (constraint_of p.0.queried host ≡ some c)
          × (query host c ≡ some schedds))

  for_hosts-IsExplained :
      (s : ScheddCache) (constraint : String) (o : Option String) (hosts : List String)
      → IsCached query s
      → IsExplained o hosts (get_for_hosts query s constraint o hosts)
  for_hosts-IsExplained s constraint none [] k = inl (refl, refl)
  for_hosts-IsExplained s constraint (some x) [] k = inl (refl, refl)
  for_hosts-IsExplained s constraint (some x) (host ∷ hosts) k =
      inr (inr (inl (host, x, refl, refl)))
  for_hosts-IsExplained s constraint none (host ∷ hosts) k =
      elim (Option-cases (get_for_hosts query s constraint none (host ∷ hosts)).1) [
        | inl missing ↦ inr (
            inl (
              refl,
              missing,
              all-HasFailed _ (host ∷ hosts)
                  (try_collectors-IsCached query (host ∷ hosts) s constraint k)
                  (try_collectors-HasError (host ∷ hosts) s constraint missing),
            ))
        | inr ((h, schedds), found) ↦
            let (c, asked, answer) =
              for_hosts_answer s constraint (host ∷ hosts) h schedds k found in
            inr (inr (inr (h, schedds, c, refl, found, asked, answer)))
      ]

  -- After the lookups of all services, in any order, and one more, no collector was queried twice.
  -- The last lookup found nothing, where it has no collectors, or no override and the one query of
  -- each of its collectors failed; or it found the schedd of its override; or it has no override and
  -- found what a collector answered to its one query, with the constraint of that query.
  pub schedds_queried_once :
      (requests : List ScheddRequest) (r : ScheddRequest)
      → let found =
          get_schedds_and_collector_host query (lookup_all query empty_cache requests) r in
        NodupHosts found.0.queried × IsExplained r.schedds_override r.collector_hosts found
  unfolding get_schedds_and_collector_host
  schedds_queried_once requests r =
      let k = lookup_all-IsCached query requests empty_cache (empty-IsCached query) in
      let s = lookup_all query empty_cache requests in
      (
        (get_schedds-IsCached query s r k).once,
        for_hosts-IsExplained s r.constraint r.schedds_override r.collector_hosts k,
      )
