-- ===== src/Notifications/ErrorCounts.antt =====
-- internal/notifications/db.go: the error counts of one service. Counts are natural numbers, read
-- as Go's `int` below its bound, where `count + 1` does not wrap.
pub mod Runs
pub mod Changes
pub mod Store
pub mod Rows
pub mod Cycle
use managed_tokens.Base.{ℕ, ◌+◌, String, Bool, true, false, none, some, List, [], ◌∷◌}
use managed_tokens.Base.{leb, if◌then◌else◌, string_comparable}
use managed_tokens.Base.Dict.{Dict, lookup, insert}
use managed_tokens.Notifications.{Notification, setup_error, push_error}

pub record ErrorCount : Type 0 where
  pub value : ℕ
  pub changed : Bool

abbrev pub set : ErrorCount → ℕ → ErrorCount
set ec val = record ec { value = val; changed = true }

pub record ServiceErrorCounts : Type 0 where
  pub setup_errors : ErrorCount
  pub push_errors : Dict String ErrorCount

-- `adjustCount`: the new count, and whether to send.
abbrev pub adjust_count : ℕ → ℕ → ℕ × Bool
adjust_count minimum count =
    let new_count = count + 1 in if leb minimum new_count then (0, true) else (new_count, false)

-- The branch for `*pushError`.
unfoldable pub adjust_push : ℕ → String → ServiceErrorCounts → ServiceErrorCounts × Bool
adjust_push minimum node ec = elim (lookup ec.push_errors node) [
  | some count ↦
      let (new_value, send) = adjust_count minimum count.value in
      (record ec { push_errors = insert ec.push_errors node (set count new_value) }, send)
  | none ↦
      let first : ErrorCount = record { value = 1; changed = true } in
      (record ec { push_errors = insert ec.push_errors node first }, false)
]

-- The branch for `*setupError`.
unfoldable pub adjust_setup : ℕ → ServiceErrorCounts → ServiceErrorCounts × Bool
adjust_setup minimum ec =
    let (new_value, send) = adjust_count minimum ec.setup_errors.value in
    (record ec { setup_errors = set ec.setup_errors new_value }, send)

-- adjustErrorCountsByServiceAndDirectNotification
unfoldable pub adjust_error_counts :
    Notification → ServiceErrorCounts → ℕ → ServiceErrorCounts × Bool
unfolding adjust_push adjust_setup
adjust_error_counts (push_error _ _ node) ec minimum = adjust_push minimum node ec
adjust_error_counts (setup_error _ _) ec minimum = adjust_setup minimum ec
