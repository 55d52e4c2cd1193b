-- ===== src/Tests/Timeouts.antt =====
-- The timeouts of cmd/token-push at concrete configurations.
use managed_tokens.Base.{◌≡◌, refl, String, true, false, Option, none, some, List}
use managed_tokens.Base.{
  [], ◌∷◌, ◌==◌, if◌then◌else◌, string_comparable, nat_comparable, ◌↔◌, arith,
}
use managed_tokens.Base.Integers.{ℤ, pos, negsuc}
use managed_tokens.Base.Dict.{lookup, insert}
use managed_tokens.TokenPush.Timeouts.{
  timeout_push, string_of, get_timeout_key_from_string, trim_suffix, add, after, timeouts_of,
  default_timeouts, save_timeout, save_timeouts, add_components, global_of, init_timeouts,
}
use managed_tokens.TokenPush.Timeouts.Within.{IsWithin, timeout_for, init_timeouts_lem}

-- A parser of three durations.
abbrev parse : String → Option ℤ
parse s =
    if s == "5m"
    then some (pos 300000000000)
    else if s == "4m"
    then some (pos 240000000000)
    else if s == "-1ns"
    then some (negsuc 0)
    else none

-- The push is given four minutes, and a wrong text for the ping is passed over.
abbrev long_push : List (String × String)
long_push = ("pushtimeout", "4m") ∷ ("pingtimeout", "soon") ∷ ("unknowntimeout", "5m") ∷ []

init_timeouts_lem_example :
    (lookup (init_timeouts parse long_push default_timeouts).0 timeout_push
      ≡ some (timeout_for parse long_push timeout_push))
    × (((init_timeouts parse long_push default_timeouts).1 ≡ true)
        ↔ IsWithin (timeout_for parse long_push))
init_timeouts_lem_example = init_timeouts_lem parse long_push timeout_push (omega arith)

long_push_refused :
    (lookup (init_timeouts parse long_push default_timeouts).0 timeout_push
      ≡ some (pos 240000000000))
    × ((init_timeouts parse long_push default_timeouts).1 ≡ false)
unfolding init_timeouts save_timeouts save_timeout get_timeout_key_from_string string_of trim_suffix
    add after timeouts_of add_components global_of lookup insert string_comparable nat_comparable
long_push_refused = (refl, refl)

-- A negative timeout for the push makes room for the others.
negative_accepted : (init_timeouts parse (("push", "-1ns") ∷ []) default_timeouts).1 ≡ true
unfolding init_timeouts save_timeouts save_timeout get_timeout_key_from_string string_of trim_suffix
    add after timeouts_of add_components global_of lookup insert string_comparable nat_comparable
negative_accepted = refl
