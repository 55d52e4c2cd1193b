-- ===== src/ServiceName/Roundtrip.antt =====
-- Experiment and role are read back from a name that is made of them.
use Prim.Native.Char.{Char}
use text.Mathlib.TextLemmas.{cons-append, nil-append}
use managed_tokens.Base.{◌≡◌, refl, ap, ◌∙◌, String, ◌<>◌, Bool, true, none, some, arith}
use managed_tokens.Base.{nat_comparable, ◌&&◌, not, false, [], ◌∷◌}
use managed_tokens.ServiceName.{
  is_alnum, is_line_break, lines_of, match_line, match_first, alnum_prefix, role_behind, last_split,
  extract_experiment_and_role_from_service_name,
}

abbrev pub all_alnum : String → Bool
all_alnum String.[] = true
all_alnum (String.◌∷◌ c s) = is_alnum c && all_alnum s

alnum_prefix-alnum : (s : String) → all_alnum s ≡ true → alnum_prefix s ≡ s
unfolding alnum_prefix
alnum_prefix-alnum String.[] h = refl
alnum_prefix-alnum (String.◌∷◌ c s) h = ground (arith, alnum_prefix-alnum s)

role_behind-alnum : (c : Char) (s : String) → is_alnum c ≡ true → role_behind c s ≡ none
role_behind-alnum c String.[] h = refl
role_behind-alnum c (String.◌∷◌ d s) h = ground arith

last_split-alnum : (s : String) → all_alnum s ≡ true → last_split s ≡ none
unfolding last_split
last_split-alnum String.[] h = refl
last_split-alnum (String.◌∷◌ c s) h =
    let hs : all_alnum s ≡ true = ground arith in
    let hc : is_alnum c ≡ true = ground arith in
    rw (last_split-alnum s hs) (role_behind-alnum c (alnum_prefix s) hc)

underscore-cons : (s : String) → "_" <> s ≡ String.◌∷◌ "_" s
underscore-cons s = cons-append "_" "" s ∙ ap (λ t. String.◌∷◌ "_" t) (nil-append s)

last_split-underscore :
    (c : Char) (r : String)
    → all_alnum (String.◌∷◌ c r) ≡ true
    → last_split ("_" <> String.◌∷◌ c r) ≡ some ("", String.◌∷◌ c r)
unfolding last_split nat_comparable
last_split-underscore c r h = rw (underscore-cons (String.◌∷◌ c r)) (
    rw (last_split-alnum (String.◌∷◌ c r) h, last_split)
      (rw (alnum_prefix-alnum (String.◌∷◌ c r) h) refl))

last_split-append :
    (e : String) (c : Char) (r : String)
    → all_alnum (String.◌∷◌ c r) ≡ true
    → last_split (e <> ("_" <> String.◌∷◌ c r)) ≡ some (e, String.◌∷◌ c r)
unfolding last_split
last_split-append String.[] c r h = rw nil-append (last_split-underscore c r h)
last_split-append (String.◌∷◌ d e) c r h =
    rw cons-append (rw (last_split-append e c r h, last_split) refl)

abbrev pub is_one_line : String → Bool
is_one_line String.[] = true
is_one_line (String.◌∷◌ c s) = not (is_line_break c) && is_one_line s

lines_of_one_line : (s : String) → is_one_line s ≡ true → lines_of s ≡ s ∷ []
unfolding lines_of
lines_of_one_line String.[] h = refl
lines_of_one_line (String.◌∷◌ c s) h =
    let hs : is_one_line s ≡ true = ground arith in
    let hc : is_line_break c ≡ false = ground arith in rw (hc, lines_of_one_line s hs) refl

alnum-is_one_line : (s : String) → all_alnum s ≡ true → is_one_line s ≡ true
unfolding nat_comparable
alnum-is_one_line String.[] h = refl
alnum-is_one_line (String.◌∷◌ c s) h = ground (arith, alnum-is_one_line s)

is_one_line-append :
    (s t : String) → is_one_line s ≡ true → is_one_line t ≡ true → is_one_line (s <> t) ≡ true
is_one_line-append String.[] t hs ht = rw nil-append ht
is_one_line-append (String.◌∷◌ c s) t hs ht =
    let rest : is_one_line s ≡ true = ground arith in
    let here : is_line_break c ≡ false = ground arith in
    rw cons-append (rw here (is_one_line-append s t rest ht))

match_line-name :
    (first : Char) (e : String) (c : Char) (r : String)
    → all_alnum (String.◌∷◌ c r) ≡ true
    → match_line (String.◌∷◌ first e <> ("_" <> String.◌∷◌ c r))
      ≡ some (String.◌∷◌ first e, String.◌∷◌ c r)
unfolding match_line
match_line-name first e c r h = rw cons-append (rw (last_split-append e c r h, match_line) refl)

underscore-is_one_line : is_one_line "_" ≡ true
unfolding nat_comparable
underscore-is_one_line = refl

extract_matched :
    (s experiment role : String)
    → is_one_line s ≡ true
    → match_line s ≡ some (experiment, role)
    → extract_experiment_and_role_from_service_name s ≡ (experiment, role)
unfolding extract_experiment_and_role_from_service_name match_first
extract_matched s experiment role one m =
    rw (extract_experiment_and_role_from_service_name, lines_of_one_line s one, match_first, m) refl

-- A service that is named by an experiment without line breaks and a role of letters and digits,
-- neither of them empty, has that experiment and that role, whatever underscores are in the
-- experiment.
pub extract_experiment_and_role :
    (first : Char) (e : String) (c : Char) (r : String)
    → is_one_line (String.◌∷◌ first e) ≡ true
    → all_alnum (String.◌∷◌ c r) ≡ true
    → let experiment : String = String.◌∷◌ first e in
      let role : String = String.◌∷◌ c r in
      extract_experiment_and_role_from_service_name (experiment <> ("_" <> role))
      ≡ (experiment, role)
extract_experiment_and_role first e c r one h =
    extract_matched (String.◌∷◌ first e <> ("_" <> String.◌∷◌ c r)) (String.◌∷◌ first e)
      (String.◌∷◌ c r)
      (is_one_line-append (String.◌∷◌ first e) ("_" <> String.◌∷◌ c r) one (
        is_one_line-append "_" (String.◌∷◌ c r) underscore-is_one_line
          (alnum-is_one_line (String.◌∷◌ c r) h)))
      (match_line-name first e c r h)
