-- ===== src/Worker/PushToNode/Retries.antt =====
-- When a push succeeds, and how often it tries.
use managed_tokens.Base.{ℕ, zero, suc, ◌+◌, ◌^◌, ◌≤◌, ◌<◌, ◌≡◌, ◌↔◌, true, false, arith}
use managed_tokens.Base.{none, Bool-cases, inl, inr}
use mathlib.Core.Path.{subst}
use mathlib.Core.Logic.{◌≢◌}
use native.Mathlib.Decide.{dec_lt}
use managed_tokens.Base.Integers.{to_int_small}
use managed_tokens.Worker.PushToNode.{Try, is_deadline, push_loop, push_rounds, push_to_node}

-- A round that neither succeeds nor ends the loop.
abbrev pub IsRetryable : Try → Type 0
IsRetryable t =
    (is_deadline t.before ≡ false) × (t.copied ≡ false) × (t.unpingable ≡ false) × (t.after ≡ none)

-- A round that copies the file.
abbrev pub IsCopied : Try → Type 0
IsCopied t = (is_deadline t.before ≡ false) × (t.copied ≡ true)

module _ (tries : ℕ → Try) where
  -- The rounds from `i` up to `k` are to be retried, and round `k` copies the file.
  abbrev pub FirstCopy : ℕ → ℕ → Type 0
  FirstCopy i k = IsCopied (tries k) × ((j : ℕ) → i ≤ j → j < k → IsRetryable (tries j))

  push_loop-copies : (left i : ℕ) → (push_loop tries left i).copies ≤ i + left + 1
  unfolding push_loop
  push_loop-copies zero i = ground arith
  push_loop-copies (suc left) i = ground (arith, push_loop-copies left (i + 1))

  retry-push_loop :
      (left i : ℕ)
      → (tries i).copied ≡ false
      → (push_loop tries (suc left) i).error ≡ none
      → IsRetryable (tries i) × ((push_loop tries left (i + 1)).error ≡ none)
  unfolding push_loop
  retry-push_loop left i c h = ground arith

  push_loop-retry :
      (left i : ℕ)
      → IsRetryable (tries i)
      → push_loop tries (suc left) i ≡ push_loop tries left (i + 1)
  unfolding push_loop
  push_loop-retry left i r = ground arith

  push_loop-copied : (left i : ℕ) → IsCopied (tries i) → (push_loop tries left i).error ≡ none
  unfolding push_loop
  push_loop-copied zero i c = ground arith
  push_loop-copied (suc left) i c = ground arith

  copied-push_loop :
      (left i : ℕ)
      → (tries i).copied ≡ true
      → (push_loop tries left i).error ≡ none
      → IsCopied (tries i)
  unfolding push_loop
  copied-push_loop zero i c h = ground arith
  copied-push_loop (suc left) i c h = ground arith

  last-push_loop : (i : ℕ) → (tries i).copied ≡ false → (push_loop tries zero i).error ≢ none
  unfolding push_loop
  last-push_loop i c h = ground arith

  earlier :
      (i k : ℕ)
      → IsRetryable (tries i)
      → ((j : ℕ) → i + 1 ≤ j → j < k → IsRetryable (tries j))
      → (j : ℕ) → i ≤ j
      → j < k
      → IsRetryable (tries j)
  earlier i k r f j p q = elim (dec_lt i j) [
    | yes later ↦ f j (omega arith) q
    | no not_later ↦ let e : i ≡ j = omega arith in subst (λ x. IsRetryable (tries x)) e r
  ]

  push_loop_sound :
      (left i : ℕ)
      → (push_loop tries left i).error ≡ none
      → (k : ℕ) × (i ≤ k) × (k ≤ i + left) × FirstCopy i k
  push_loop_sound zero i h = elim (Bool-cases (tries i).copied) [
    | inl c ↦
        (i, omega arith, omega arith, (copied-push_loop zero i c h, λ j p q. absurd (omega arith)))
    | inr c ↦ absurd (last-push_loop i c h)
  ]
  push_loop_sound (suc left) i h = elim (Bool-cases (tries i).copied) [
    | inl c ↦ (
      i,
      omega arith,
      omega arith,
      (copied-push_loop (suc left) i c h, λ j p q. absurd (omega arith)),
    )
    | inr c ↦
        let (r, rest) = retry-push_loop left i c h in
        let (k, low, high, first) = push_loop_sound left (i + 1) rest in
        (k, omega arith, omega arith, (first.0, earlier i k r first.1))
  ]

  push_loop_complete :
      (left i k : ℕ) → i ≤ k → k ≤ i + left → FirstCopy i k → (push_loop tries left i).error ≡ none
  push_loop_complete zero i k low high (c, f) =
      let e : k ≡ i = omega arith in push_loop-copied zero i (subst (λ x. IsCopied (tries x)) e c)
  push_loop_complete (suc left) i k low high (c, f) = elim (dec_lt i k) [
    | yes later ↦ rw (push_loop-retry left i (f i (omega arith) later)) (
        push_loop_complete left (i + 1) k (omega arith) (omega arith)
          (c, λ j p q. f j (omega arith) q))
    | no not_later ↦
        let e : k ≡ i = omega arith in
        push_loop-copied (suc left) i (subst (λ x. IsCopied (tries x)) e c)
  ]

  -- A push succeeds exactly when one of its rounds copies the file and every round before it is one
  -- after which the loop goes on; and it makes at most one copy more than it has retries. This is for
  -- a number of retries that is not negative as an `int`.
  pub push_to_node_succeeds :
      (n : ℕ)
      → n < 2 ^ 63
      → (((push_to_node tries n).error ≡ none) ↔ ((k : ℕ) × (k ≤ n) × FirstCopy 0 k))
        × ((push_to_node tries n).copies ≤ n + 1)
  unfolding push_to_node push_rounds
  push_to_node_succeeds n h = rw (to_int_small n h) (
    (
      λ ok. let (k, low, high, first) = push_loop_sound n 0 ok in (k, omega arith, first),
      λ (k, high, first). push_loop_complete n 0 k (omega arith) (omega arith) first,
    ),
    omega (arith, push_loop-copies n 0),
  )
