-- ===== src/TokenPush/Timeouts.antt =====
-- cmd/token-push/timeoutKey.go and initTimeouts of main.go: the timeouts of a run, and the check
-- that those of its parts add up to no more than the timeout of the whole.
pub mod Within
use managed_tokens.Base.{ℕ, suc, ◌+◌, String, Bool, true, false, not, Option, none, some, List, []}
use managed_tokens.Base.{◌∷◌, ◌==◌, ltb, if◌then◌else◌, nat_comparable, string_comparable}
use managed_tokens.Base.Integers.{ℤ, pos, negsuc}
use managed_tokens.Base.Dict.{Dict, lookup, insert}

-- timeoutKey, a uint8 counted from timeoutGlobal on
abbrev pub TimeoutKey : Type 0
TimeoutKey = ℕ

abbrev pub timeout_global : TimeoutKey
timeout_global = 0

abbrev pub timeout_kerberos : TimeoutKey
timeout_kerberos = 1

abbrev pub timeout_vault_storer : TimeoutKey
timeout_vault_storer = 2

abbrev pub timeout_ping : TimeoutKey
timeout_ping = 3

abbrev pub timeout_push : TimeoutKey
timeout_push = 4

-- timeoutKey.String
unfoldable pub string_of : TimeoutKey → String
string_of t =
    if t == timeout_global
    then "global"
    else if t == timeout_kerberos
    then "kerberos"
    else if t == timeout_vault_storer
    then "vaultstorer"
    else if t == timeout_ping
    then "ping"
    else if t == timeout_push
    then "push"
    else ""

-- The keys below invalidTimeoutKey.
abbrev pub timeout_keys : List TimeoutKey
timeout_keys =
    timeout_global ∷ timeout_kerberos ∷ timeout_vault_storer ∷ timeout_ping ∷ timeout_push ∷ []

-- The loop of getTimeoutKeyFromString.
abbrev pub find_key : List TimeoutKey → String → Option TimeoutKey
find_key [] s = none
find_key (t ∷ ts) s = let rest = find_key ts s in if string_of t == s then some t else rest

-- getTimeoutKeyFromString
unfoldable pub get_timeout_key_from_string : String → Option TimeoutKey
get_timeout_key_from_string = find_key timeout_keys

-- strings.TrimSuffix
unfoldable pub trim_suffix : String → String → String
trim_suffix String.[] suffix = String.[]
trim_suffix (String.◌∷◌ c s) suffix =
    let rest = trim_suffix s suffix in
    if String.◌∷◌ c s == suffix then String.[] else String.◌∷◌ c rest

-- A time, by what was added to the time of the check and what was taken from it.
pub record Time : Type 0 where
  pub added : ℕ
  pub taken : ℕ

abbrev pub now : Time
now = record { added = 0; taken = 0 }

-- Time.Add
unfoldable pub add : Time → ℤ → Time
add t (pos n) = record { added = t.added + n; taken = t.taken }
add t (negsuc n) = record { added = t.added; taken = t.taken + suc n }

-- Time.After
unfoldable pub after : Time → Time → Bool
after t u = ltb (u.added + t.taken) (t.added + u.taken)

abbrev pub Timeouts : Type 0
Timeouts = Dict TimeoutKey ℤ

-- Timeouts with a value for every key, in the order of the source.
unfoldable pub timeouts_of : (TimeoutKey → ℤ) → Timeouts
timeouts_of f =
    (timeout_global, f timeout_global)
    ∷ (timeout_kerberos, f timeout_kerberos)
    ∷ (timeout_vault_storer, f timeout_vault_storer)
    ∷ (timeout_ping, f timeout_ping)
    ∷ (timeout_push, f timeout_push)
    ∷ []

abbrev pub default_of : TimeoutKey → ℤ
default_of t =
    if t == timeout_global
    then pos 300000000000
    else if t == timeout_kerberos
    then pos 20000000000
    else if t == timeout_vault_storer
    then pos 60000000000
    else if t == timeout_ping
    then pos 10000000000
    else pos 30000000000

-- The supported timeouts and their default values.
abbrev pub default_timeouts : Timeouts
default_timeouts = timeouts_of default_of

-- time.ParseDuration is a parameter; none is its error.
module _ (parse_duration : String → Option ℤ) where
  -- The body of the first loop of initTimeouts, at one key and text of the configuration.
  unfoldable pub save_timeout : String → String → Timeouts → Timeouts
  save_timeout key text m = elim (get_timeout_key_from_string (trim_suffix key "timeout")) [
    | none ↦ m
    | some t ↦ elim (parse_duration text) [ none ↦ m | some d ↦ insert m t d ]
  ]

  -- The first loop of initTimeouts, over the configured texts in any order.
  unfoldable pub save_timeouts : List (String × String) → Timeouts → Timeouts
  save_timeouts [] m = m
  save_timeouts ((key, text) ∷ more) m = save_timeouts more (save_timeout key text m)

-- The second loop of initTimeouts.
unfoldable pub add_components : Timeouts → Time → Time
add_components [] t = t
add_components ((key, d) ∷ m) t = add_components m (if key == timeout_global then t else add t d)

-- `timeouts[timeoutGlobal]`
unfoldable pub global_of : Timeouts → ℤ
global_of m = elim (lookup m timeout_global) [ none ↦ pos 0 | some d ↦ d ]

-- initTimeouts: the timeouts that it leaves, and whether it returns no error.
unfoldable pub init_timeouts :
    (String → Option ℤ) → List (String × String) → Timeouts → Timeouts × Bool
init_timeouts parse_duration configured timeouts =
    let m = save_timeouts parse_duration configured timeouts in
    (m, not (after (add_components m now) (add now (global_of m))))
