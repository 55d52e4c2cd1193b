-- ===== src/TokenPush/Schedds.antt =====
-- cmd/token-push/config.go, scheddCache.go and scheddCollection.go: the schedds of a service, from
-- an override, from the cache or from a collector. The cache lives as long as the program, and its
-- lock is held during a lookup, so the lookups of all services are a sequence.
pub mod Once
pub mod Cached
use managed_tokens.Base.{String, Bool, true, false, Option, none, some, List, [], ◌∷◌, ◌++◌}
use managed_tokens.Base.{◌==◌, if◌then◌else◌, string_comparable}
use managed_tokens.Base.Dict.{Dict, lookup, insert}

-- An entry of the cache whose `once` has run: the schedds, or the error of the query, which stays.
abbrev pub ScheddCacheEntry : Type 0
ScheddCacheEntry = Option (List String)

-- The cache, and the collectors that were queried with their constraints, latest first.
pub record ScheddCache : Type 0 where
  pub cache : Dict String ScheddCacheEntry
  pub queried : List (String × String)

-- getScheddsFromCondor, by collector host and constraint; none is an error.
abbrev pub Query : Type 0
Query = String → String → Option (List String)

-- The entry of a collector, which is queried if there is none: populateFromCollector stores the
-- schedds in an empty collection.
abbrev pub populate :
    Query → ScheddCache → String → String → Option ScheddCacheEntry → ScheddCache × ScheddCacheEntry
populate query s constraint host (some entry) = (s, entry)
populate query s constraint host none = (
  record {
    cache = insert s.cache host (query host constraint);
    queried = (host, constraint) ∷ s.queried;
  },
  query host constraint,
)

-- An entry with schedds ends the loop, and one with an error goes on with the rest of it.
abbrev pub use_entry :
    String
    → ScheddCache × ScheddCacheEntry
    → ScheddCache × Option (String × List String)
    → ScheddCache × Option (String × List String)
use_entry host (s, none) rest = rest
use_entry host (s, some schedds) rest = (s, some (host, schedds))

-- The loop over the collector hosts.
unfoldable pub try_collectors :
    Query → ScheddCache → String → List String → ScheddCache × Option (String × List String)
try_collectors query s constraint [] = (s, none)
try_collectors query s constraint (host ∷ hosts) =
    let entry = populate query s constraint host (lookup s.cache host) in
    use_entry host entry (try_collectors query entry.0 constraint hosts)

-- What the configuration says of a service: the collector hosts, after the split at commas, none
-- if the text is empty; the override of the schedds; and the constraint.
pub record ScheddRequest : Type 0 where
  pub collector_hosts : List String
  pub schedds_override : Option String
  pub constraint : String

abbrev pub get_for_hosts :
    Query
    → ScheddCache
    → String
    → Option String
    → List String
    → ScheddCache × Option (String × List String)
get_for_hosts query s constraint schedds_override [] = (s, none)
get_for_hosts query s constraint (some schedd) (host ∷ hosts) = (s, some (host, schedd ∷ []))
get_for_hosts query s constraint none (host ∷ hosts) =
    try_collectors query s constraint (host ∷ hosts)

-- getScheddsAndCollectorHostFromConfiguration
unfoldable pub get_schedds_and_collector_host :
    Query → ScheddCache → ScheddRequest → ScheddCache × Option (String × List String)
get_schedds_and_collector_host query s r =
    get_for_hosts query s r.constraint r.schedds_override r.collector_hosts

abbrev pub empty_cache : ScheddCache
empty_cache = record { cache = []; queried = [] }

-- The lookups of all services, in the order in which they take the lock.
unfoldable pub lookup_all : Query → ScheddCache → List ScheddRequest → ScheddCache
lookup_all query s [] = s
lookup_all query s (r ∷ more) = lookup_all query (get_schedds_and_collector_host query s r).0 more
