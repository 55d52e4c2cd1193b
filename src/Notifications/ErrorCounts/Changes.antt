-- ===== src/Notifications/ErrorCounts/Changes.antt =====
-- Which counters a stream of notifications marks as changed, and that nodes stay listed once.
use managed_tokens.Base.{ℕ, ◌<◌, ◌≡◌, refl, ◌∙◌, Bool, true, false, arith}
use managed_tokens.Base.{Option, none, some, List, [], ◌∷◌, string_comparable, Bool-cases, inl, inr}
use managed_tokens.Base.Dict.{lookup-insert, NodupKeys, insert-NodupKeys, lookup}
use managed_tokens.Notifications.{Notification, setup_error, push_error}
use managed_tokens.Notifications.ErrorCounts.{ErrorCount, ServiceErrorCounts, adjust_error_counts}
use managed_tokens.Notifications.ErrorCounts.Runs.{
  Target, setup, at_node, concerns, count, adjust_all,
}

abbrev pub entry : Target → ServiceErrorCounts → Option ErrorCount
entry setup ec = some ec.setup_errors
entry (at_node node) ec = lookup ec.push_errors node

abbrev pub is_changed : Option ErrorCount → Bool
is_changed none = false
is_changed (some c) = c.changed

module _ (t : Target) (n : Notification) (ec : ServiceErrorCounts) (minimum : ℕ) where
  abbrev after : Option ErrorCount
  after = entry t (adjust_error_counts n ec minimum).0

entry-adjust_other :
    (t : Target) (n : Notification) (ec : ServiceErrorCounts) (minimum : ℕ)
    → concerns t n ≡ false
    → after t n ec minimum ≡ entry t ec
unfolding adjust_error_counts
entry-adjust_other setup (setup_error m s) ec minimum h = cc
entry-adjust_other setup (push_error m s node) ec minimum h = ground arith
entry-adjust_other (at_node k) (setup_error m s) ec minimum h = ground arith
entry-adjust_other (at_node k) (push_error m s node) ec minimum h = grind (arith, lookup-insert)

is_changed-adjust :
    (t : Target) (n : Notification) (ec : ServiceErrorCounts) (minimum : ℕ)
    → concerns t n ≡ true
    → is_changed (after t n ec minimum) ≡ true
unfolding adjust_error_counts
is_changed-adjust setup (setup_error m s) ec minimum h = ground arith
is_changed-adjust setup (push_error m s node) ec minimum h = cc
is_changed-adjust (at_node k) (setup_error m s) ec minimum h = cc
is_changed-adjust (at_node k) (push_error m s node) ec minimum h = grind (arith, lookup-insert)

-- A counter whose target got no error is as it was, and one that is marked stays marked.
pub entry-adjust_all_other :
    (t : Target) (ns : List Notification) (ec : ServiceErrorCounts) (minimum : ℕ)
    → count t ns ≡ 0
    → entry t (adjust_all minimum ec ns).0 ≡ entry t ec
unfolding adjust_all
entry-adjust_all_other t [] ec minimum h = refl
entry-adjust_all_other t (n ∷ ns) ec minimum h = elim (Bool-cases (concerns t n)) [
  | inl hit ↦ absurd (ground arith)
  | inr miss ↦
      entry-adjust_all_other t ns (adjust_error_counts n ec minimum).0 minimum (ground arith)
      ∙ entry-adjust_other t n ec minimum miss
]

is_changed-adjust_all_keeps :
    (t : Target) (ns : List Notification) (ec : ServiceErrorCounts) (minimum : ℕ)
    → is_changed (entry t ec) ≡ true
    → is_changed (entry t (adjust_all minimum ec ns).0) ≡ true
unfolding adjust_all
is_changed-adjust_all_keeps t [] ec minimum h = h
is_changed-adjust_all_keeps t (n ∷ ns) ec minimum h =
    is_changed-adjust_all_keeps t ns (adjust_error_counts n ec minimum).0 minimum
      (elim (Bool-cases (concerns t n)) [
        | inl hit ↦ is_changed-adjust t n ec minimum hit
        | inr miss ↦ rw (entry-adjust_other t n ec minimum miss) h
      ])

pub is_changed-adjust_all :
    (t : Target) (ns : List Notification) (ec : ServiceErrorCounts) (minimum : ℕ)
    → 0 < count t ns
    → is_changed (entry t (adjust_all minimum ec ns).0) ≡ true
unfolding adjust_all
is_changed-adjust_all t [] ec minimum h = absurd (omega arith)
is_changed-adjust_all t (n ∷ ns) ec minimum h =
    let ec' = (adjust_error_counts n ec minimum).0 in
    elim (Bool-cases (concerns t n)) [
      | inl hit ↦
          is_changed-adjust_all_keeps t ns ec' minimum (is_changed-adjust t n ec minimum hit)
      | inr miss ↦ is_changed-adjust_all t ns ec' minimum (ground arith)
    ]

adjust-NodupKeys :
    (n : Notification) (ec : ServiceErrorCounts) (minimum : ℕ)
    → NodupKeys ec.push_errors
    → NodupKeys (adjust_error_counts n ec minimum).0.push_errors
unfolding adjust_error_counts
adjust-NodupKeys (setup_error m s) ec minimum h = ground arith
adjust-NodupKeys (push_error m s node) ec minimum h = grind (arith, insert-NodupKeys)

pub adjust_all-NodupKeys :
    (ns : List Notification) (ec : ServiceErrorCounts) (minimum : ℕ)
    → NodupKeys ec.push_errors
    → NodupKeys (adjust_all minimum ec ns).0.push_errors
unfolding adjust_all
adjust_all-NodupKeys [] ec minimum h = h
adjust_all-NodupKeys (n ∷ ns) ec minimum h =
    adjust_all-NodupKeys ns (adjust_error_counts n ec minimum).0 minimum
      (adjust-NodupKeys n ec minimum h)
