-- ===== src/ServiceName.antt =====
-- internal/service/service.go: the experiment and the role that are in the name of a service. The
-- pattern is `(.+)_([[:alnum:]]+)`, which is searched for from the left and takes as much as it can:
-- the role is what follows the last underscore that has an experiment before it and a letter or digit
-- behind it, in the first line of the name that has one.
pub mod Roundtrip
use Prim.Native.Char.{Char, code}
use Prim.Native.String
use managed_tokens.Base.{
  ℕ, String, Bool, true, false, ◌&&◌, ◌||◌, Option, none, some, leb, List, [], ◌∷◌,
}
use managed_tokens.Base.{if◌then◌else◌, ◌==◌, nat_comparable}

-- `DefaultRole`
abbrev pub default_role : String
default_role = "Analysis"

-- `[:alnum:]`
abbrev pub is_alnum : Char → Bool
is_alnum c =
    (leb 48 (code c) && leb (code c) 57)
    || (leb 65 (code c) && leb (code c) 90)
    || (leb 97 (code c) && leb (code c) 122)

abbrev pub is_underscore : Char → Bool
is_underscore c = code c == 95

-- The letters and digits at the start of a text.
unfoldable pub alnum_prefix : String → String
alnum_prefix String.[] = String.[]
alnum_prefix (String.◌∷◌ c s) =
    let rest = alnum_prefix s in if is_alnum c then String.◌∷◌ c rest else String.[]

-- A role behind an underscore, if there is one.
abbrev pub role_behind : Char → String → Option (String × String)
role_behind c String.[] = none
role_behind c (String.◌∷◌ d r) = if is_underscore c then some (String.[], String.◌∷◌ d r) else none

-- The last underscore with a letter or digit behind it: what is before it, and the role behind it.
unfoldable pub last_split : String → Option (String × String)
unfolding alnum_prefix
last_split String.[] = none
last_split (String.◌∷◌ c s) =
    let rest = last_split s in
    elim rest [
      | none ↦ role_behind c (alnum_prefix s)
      | some (before, role) ↦ some (String.◌∷◌ c before, role)
    ]

-- `\n`, which the dot does not match.
abbrev pub is_line_break : Char → Bool
is_line_break c = code c == 10

-- A character put before the first line.
abbrev pub before_first : Char → List String → List String
before_first c [] = String.◌∷◌ c String.[] ∷ []
before_first c (line ∷ lines) = String.◌∷◌ c line ∷ lines

-- The lines of a text. A match of the pattern has no line break, so it is inside a line.
unfoldable pub lines_of : String → List String
lines_of String.[] = String.[] ∷ []
lines_of (String.◌∷◌ c s) =
    let rest = lines_of s in if is_line_break c then String.[] ∷ rest else before_first c rest

-- The match in a line, which has at least one character before the underscore.
unfoldable pub match_line : String → Option (String × String)
unfolding last_split
match_line String.[] = none
match_line (String.◌∷◌ c s) = elim (last_split s) [
  | none ↦ none
  | some (before, role) ↦ some (String.◌∷◌ c before, role)
]

-- FindStringSubmatch: the match in the first line that has one.
unfoldable pub match_first : List String → Option (String × String)
unfolding match_line
match_first [] = none
match_first (line ∷ lines) = elim (match_line line) [ none ↦ match_first lines | some m ↦ some m ]

-- ExtractExperimentAndRoleFromServiceName
unfoldable pub extract_experiment_and_role_from_service_name : String → String × String
unfolding match_first lines_of
extract_experiment_and_role_from_service_name s = elim (match_first (lines_of s)) [
  | none ↦ (s, default_role)
  | some (experiment, role) ↦ (experiment, role)
]
