-- ===== src/Worker/PushToNode.antt =====
-- internal/worker/pushTokensWorker.go: pushToNode, the copying of one file to one node with retries.
pub mod Retries
use managed_tokens.Base.{ℕ, zero, suc, ◌+◌, ◌^◌, Bool, true, false, Option, none, some, ltb}
use managed_tokens.Base.{if◌then◌else◌}
use managed_tokens.Base.Integers.{ℤ, pos, negsuc, to_int}

-- `ctx.Err()`
pub data ContextError : Type 0 where
  deadline_exceeded canceled : ContextError

-- The error that pushToNode returns. The texts of the errors are left out.
pub data PushError : Type 0 where
  context_error : ContextError → PushError
  not_pingable_earlier : PushError
  copy_failed : PushError

-- What one round of the loop meets: the context before the copy, whether the file is copied, whether
-- the node is known not to answer to pings, and the context after the copy.
pub record Try : Type 0 where
  pub before : Option ContextError
  pub copied : Bool
  pub unpingable : Bool
  pub after : Option ContextError

-- The error, if any, and the calls of the file copier.
pub record Pushed : Type 0 where
  pub error : Option PushError
  pub copies : ℕ

abbrev ended : Option PushError → ℕ → Pushed
ended e n = record { error = e; copies = n }

-- A deadline that has passed before the copy ends the loop; a cancelled context does not.
abbrev pub is_deadline : Option ContextError → Bool
is_deadline none = false
is_deadline (some deadline_exceeded) = true
is_deadline (some canceled) = false

module _ (tries : ℕ → Try) where
  -- The loop at round `i`, with `left` retries left.
  unfoldable pub push_loop : ℕ → ℕ → Pushed
  push_loop zero i =
      let t = tries i in
      if is_deadline t.before
      then ended (some (context_error deadline_exceeded)) i
      else if t.copied
      then ended none (i + 1)
      else if t.unpingable
      then ended (some not_pingable_earlier) (i + 1)
      else elim t.after [
        | some e ↦ ended (some (context_error e)) (i + 1)
        | none ↦ ended (some copy_failed) (i + 1)
      ]
  push_loop (suc left) i =
      let t = tries i in
      let rest = push_loop left (i + 1) in
      if is_deadline t.before
      then ended (some (context_error deadline_exceeded)) i
      else if t.copied
      then ended none (i + 1)
      else if t.unpingable
      then ended (some not_pingable_earlier) (i + 1)
      else elim t.after [ some e ↦ ended (some (context_error e)) (i + 1) | none ↦ rest ]

  -- The loop, over the rounds 0 to the number of retries: for a negative number its condition fails
  -- at once, and what is behind the loop returns no error.
  unfoldable pub push_rounds : ℤ → Pushed
  push_rounds (pos n) = push_loop n 0
  push_rounds (negsuc n) = ended none 0

  -- pushToNode, with the retries, a `uint`, as the caller turns them into an `int`.
  unfoldable pub push_to_node : ℕ → Pushed
  push_to_node num_retries = push_rounds (to_int num_retries)
