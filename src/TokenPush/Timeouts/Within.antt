-- ===== src/TokenPush/Timeouts/Within.antt =====
-- The timeouts that a run of cmd/token-push uses, and what its check of them means.
use managed_tokens.Base.{
  ℕ, suc, ◌+◌, ◌≤◌, ◌<◌, ◌≡◌, refl, sym, zero, String, true, false, not, Option,
}
use managed_tokens.Base.{
  none, some, List, [], ◌∷◌, ◌==◌, if◌then◌else◌, arith, ◌↔◌, ap, Option-cases, inl, inr, ◌∙◌,
}
use managed_tokens.Base.{nat_comparable, string_comparable}
use mathlib.Core.Path.{subst}
use managed_tokens.Base.Integers.{ℤ, pos, negsuc}
use managed_tokens.Base.Dict.{lookup, insert}
use managed_tokens.TokenPush.Timeouts.{
  TimeoutKey, timeout_global, timeout_kerberos, timeout_vault_storer, timeout_ping, timeout_push,
  string_of, get_timeout_key_from_string, trim_suffix, add, after, now, timeouts_of, Time,
  default_of, default_timeouts, save_timeout, save_timeouts, add_components, global_of,
  init_timeouts,
}

-- A key is found by its own text, and only below invalidTimeoutKey.
pub get_timeout_key_from_string_sound :
    (s : String) (t : TimeoutKey)
    → get_timeout_key_from_string s ≡ some t
    → (t < 5) × (string_of t ≡ s)
unfolding get_timeout_key_from_string string_of nat_comparable
get_timeout_key_from_string_sound s t h = ground arith

abbrev pub added_of : ℤ → ℕ
added_of (pos n) = n
added_of (negsuc n) = 0

abbrev pub taken_of : ℤ → ℕ
taken_of (pos n) = 0
taken_of (negsuc n) = suc n

lookup-timeouts_of :
    (f : TimeoutKey → ℤ) (t : TimeoutKey) → t < 5 → lookup (timeouts_of f) t ≡ some (f t)
unfolding timeouts_of lookup
lookup-timeouts_of f t h = ground arith

insert-timeouts_of :
    (f : TimeoutKey → ℤ) (t : TimeoutKey) (d : ℤ)
    → t < 5
    → insert (timeouts_of f) t d ≡ timeouts_of (λ j. if j == t then d else f j)
unfolding timeouts_of insert nat_comparable
insert-timeouts_of f t d h = ground arith

timeouts_of_agree :
    (f g : TimeoutKey → ℤ) → ((t : TimeoutKey) → t < 5 → f t ≡ g t) → timeouts_of f ≡ timeouts_of g
unfolding timeouts_of
timeouts_of_agree f g h =
    rw (
      h 0 (omega arith),
      h 1 (omega arith),
      h 2 (omega arith),
      h 3 (omega arith),
      h 4 (omega arith),
    )

pub get_timeout_key_from_string-string_of :
    (t : TimeoutKey) → t < 5 → get_timeout_key_from_string (string_of t) ≡ some t
unfolding get_timeout_key_from_string string_of nat_comparable string_comparable
get_timeout_key_from_string-string_of zero h = refl
get_timeout_key_from_string-string_of (suc zero) h = refl
get_timeout_key_from_string-string_of (suc (suc zero)) h = refl
get_timeout_key_from_string-string_of (suc (suc (suc zero))) h = refl
get_timeout_key_from_string-string_of (suc (suc (suc (suc zero)))) h = refl
get_timeout_key_from_string-string_of (suc (suc (suc (suc (suc t))))) h = absurd (omega arith)

abbrev pub chosen : Option ℤ → ℤ → ℤ
chosen none d = d
chosen (some e) d = e

-- The timeouts of the parts add up to no more than the timeout of the whole.
abbrev pub IsWithin : (TimeoutKey → ℤ) → Type 0
IsWithin f =
    added_of (f timeout_kerberos)
      + added_of (f timeout_vault_storer)
      + added_of (f timeout_ping)
      + added_of (f timeout_push)
      + taken_of (f timeout_global)
    ≤ added_of (f timeout_global)
      + taken_of (f timeout_kerberos)
      + taken_of (f timeout_vault_storer)
      + taken_of (f timeout_ping)
      + taken_of (f timeout_push)

added-add : (t : Time) (d : ℤ) → (add t d).added ≡ t.added + added_of d
unfolding add
added-add t (pos n) = grind arith
added-add t (negsuc n) = grind arith

taken-add : (t : Time) (d : ℤ) → (add t d).taken ≡ t.taken + taken_of d
unfolding add
taken-add t (pos n) = grind arith
taken-add t (negsuc n) = grind arith

-- The time of the check with all the components' timeouts added.
all_components : (TimeoutKey → ℤ) → Time
all_components f =
    add (add (add (add now (f timeout_kerberos)) (f timeout_vault_storer)) (f timeout_ping))
      (f timeout_push)

after_iff : (t u : Time) → (not (after t u) ≡ true) ↔ (t.added + u.taken ≤ u.added + t.taken)
unfolding after
after_iff t u = (λ h. ground arith, λ h. ground arith)

added-all_components :
    (f : TimeoutKey → ℤ)
    → (all_components f).added
      ≡ added_of (f timeout_kerberos)
        + added_of (f timeout_vault_storer)
        + added_of (f timeout_ping)
        + added_of (f timeout_push)
unfolding all_components
added-all_components f = rw (added-add, added-add, added-add, added-add) (omega arith)

taken-all_components :
    (f : TimeoutKey → ℤ)
    → (all_components f).taken
      ≡ taken_of (f timeout_kerberos)
        + taken_of (f timeout_vault_storer)
        + taken_of (f timeout_ping)
        + taken_of (f timeout_push)
unfolding all_components
taken-all_components f = rw (taken-add, taken-add, taken-add, taken-add) (omega arith)

fits_iff :
    (f : TimeoutKey → ℤ)
    → (not (after (add_components (timeouts_of f) now) (add now (global_of (timeouts_of f))))
        ≡ true)
      ↔ IsWithin f
unfolding timeouts_of global_of lookup nat_comparable add_components all_components
fits_iff f =
    let whole_added = added-add now (f timeout_global) in
    let whole_taken = taken-add now (f timeout_global) in
    let parts_added = added-all_components f in
    let parts_taken = taken-all_components f in
    let checked = after_iff (all_components f) (add now (f timeout_global)) in
    (λ h. let small = checked.0 h in omega arith, λ h. checked.1 (omega arith))

module _ (parse_duration : String → Option ℤ) where
  -- What an entry of the configuration gives for a key.
  abbrev pub entry_for : String → String → TimeoutKey → Option ℤ
  entry_for key text t =
      if string_of t == trim_suffix key "timeout" then parse_duration text else none

  -- The last text for a key that is a duration.
  abbrev pub given : List (String × String) → TimeoutKey → Option ℤ
  given [] t = none
  given ((key, text) ∷ more) t = elim (given more t) [
    | none ↦ entry_for key text t
    | some d ↦ some d
  ]

  -- A key's timeout: the last configured one that is a duration, otherwise the default.
  abbrev pub timeout_for : List (String × String) → TimeoutKey → ℤ
  timeout_for configured t = chosen (given configured t) (default_of t)

  save_found :
      (key text : String) (f : TimeoutKey → ℤ) (k : TimeoutKey)
      → get_timeout_key_from_string (trim_suffix key "timeout") ≡ some k
      → (t : TimeoutKey) → t < 5
      → (string_of t == trim_suffix key "timeout") ≡ (t == k)
  unfolding nat_comparable
  save_found key text f k h t small =
      let named = (get_timeout_key_from_string_sound (trim_suffix key "timeout") k h).1 in
      let found = get_timeout_key_from_string-string_of t small in ground arith

  save_missed :
      (key text : String)
      → get_timeout_key_from_string (trim_suffix key "timeout") ≡ none
      → (t : TimeoutKey) → t < 5
      → (string_of t == trim_suffix key "timeout") ≡ false
  save_missed key text h t small =
      let found = get_timeout_key_from_string-string_of t small in ground arith

  ignored :
      (key text : String) (f : TimeoutKey → ℤ)
      → get_timeout_key_from_string (trim_suffix key "timeout") ≡ none
      → save_timeout parse_duration key text (timeouts_of f) ≡ timeouts_of f
  unfolding save_timeout timeouts_of
  ignored key text f h = rw (save_timeout, h)

  unchanged :
      (key text : String) (f : TimeoutKey → ℤ)
      → get_timeout_key_from_string (trim_suffix key "timeout") ≡ none
      → timeouts_of f ≡ timeouts_of (λ t. chosen (entry_for key text t) (f t))
  unchanged key text f h =
      timeouts_of_agree f (λ t. chosen (entry_for key text t) (f t))
        (λ t small. let missed = save_missed key text h t small in rw missed)

  saved :
      (key text : String) (f : TimeoutKey → ℤ) (k : TimeoutKey) (o : Option ℤ)
      → parse_duration text ≡ o
      → get_timeout_key_from_string (trim_suffix key "timeout") ≡ some k
      → elim o [ none ↦ timeouts_of f | some d ↦ insert (timeouts_of f) k d ]
        ≡ timeouts_of (λ t. chosen (entry_for key text t) (f t))
  saved key text f k none parsed h = timeouts_of_agree _ _ (λ t small. ground arith)
  saved key text f k (some d) parsed h =
      insert-timeouts_of f k d (get_timeout_key_from_string_sound _ k h).0
      ∙ timeouts_of_agree _ _
          (λ t small. let found = save_found key text f k h t small in ground arith)

  save_timeout-timeouts_of :
      (key text : String) (f : TimeoutKey → ℤ)
      → save_timeout parse_duration key text (timeouts_of f)
        ≡ timeouts_of (λ t. chosen (entry_for key text t) (f t))
  unfolding save_timeout
  save_timeout-timeouts_of key text f =
      elim (Option-cases (get_timeout_key_from_string (trim_suffix key "timeout"))) [
        | inl h ↦ ignored key text f h ∙ unchanged key text f h
        | inr (k, h) ↦ (rw (save_timeout, h)) ∙ saved key text f k (parse_duration text) refl h
      ]

  save_timeouts-timeouts_of :
      (configured : List (String × String)) (f : TimeoutKey → ℤ)
      → save_timeouts parse_duration configured (timeouts_of f)
        ≡ timeouts_of (λ t. chosen (given configured t) (f t))
  unfolding save_timeouts
  save_timeouts-timeouts_of [] f = refl
  save_timeouts-timeouts_of ((key, text) ∷ more) f =
      ap (save_timeouts parse_duration more) (save_timeout-timeouts_of key text f)
      ∙ save_timeouts-timeouts_of more (λ t. chosen (entry_for key text t) (f t))
      ∙ timeouts_of_agree _ _
          (λ t small. elim (Option-cases (given more t)) [ inl e ↦ rw e | inr (_, e) ↦ rw e ])

  -- Whatever is configured, the timeout of each key is the last configured text for it that
  -- is a duration, and otherwise its default; and initTimeouts returns no error exactly where
  -- the timeouts of the parts add up to no more than that of the whole, negative ones
  -- included.
  pub init_timeouts_lem :
      (configured : List (String × String)) (t : TimeoutKey)
      → t < 5
      → let (m, ok) = init_timeouts parse_duration configured default_timeouts in
        (lookup m t ≡ some (timeout_for configured t))
        × ((ok ≡ true) ↔ IsWithin (timeout_for configured))
  unfolding init_timeouts
  init_timeouts_lem configured t small =
      let e = save_timeouts-timeouts_of configured default_of in
      (
        ap (λ m. lookup m t) e ∙ lookup-timeouts_of (timeout_for configured) t small,
        subst
            (λ m.
              (not (after (add_components m now) (add now (global_of m))) ≡ true)
              ↔ IsWithin (timeout_for configured))
            (sym e) (fits_iff (timeout_for configured)),
      )
