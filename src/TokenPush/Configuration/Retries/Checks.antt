-- ===== src/TokenPush/Configuration/Retries/Checks.antt =====
-- What the checks of the retries accept and refuse.
use managed_tokens.Base.{ℕ, ◌*◌, ◌^◌, ◌≤◌, ◌<◌, false, ◌≡◌, ◌⊎◌, sym, true}
use managed_tokens.Base.{none, some, List, [], ◌∷◌, arith}
use managed_tokens.Base.{nat_comparable, Bool-cases, Option-cases, inl, inr, not}
use mathlib.Core.Option.{some-injective}
use managed_tokens.Base.Integers.{
  ℤ, pos, negsuc, ltb_ℤ, pos_part, to_uint, to_uint_small, wrapped_product, wrapped_product_small,
}
use managed_tokens.Base.Dict.{Dict, insert}
use managed_tokens.Worker.Config.{WorkerType}
use managed_tokens.TokenPush.Configuration.Retries.{
  WorkerRetryConfig, ConfiguredRetries, stored_retries, check_retry_timeout, RetryInfo,
  get_and_check_retry_info, retry_loop,
}

-- Neither number is negative, and the product does not overflow.
abbrev pub AreSmall : ℤ → ℤ → Type 0
AreSmall (pos n) (pos sleep) = (n < 2 ^ 63) × (sleep < 2 ^ 63) × (n * sleep < 2 ^ 63)
AreSmall (pos n) (negsuc sleep) = ⊥
AreSmall (negsuc n) sleep = ⊥

abbrev pub IsSmall : ConfiguredRetries → Type 0
IsSmall r = AreSmall r.num_retries r.retry_sleep

below : (p : ℕ) (timeout : ℤ) → not (ltb_ℤ timeout (pos p)) ≡ true → p ≤ pos_part timeout
below p (pos t) h = ground arith
below p (negsuc t) h = cc

pub check-fits :
    (n sleep timeout : ℤ)
    → AreSmall n sleep
    → check_retry_timeout n sleep timeout ≡ true
    → to_uint n * pos_part sleep ≤ pos_part timeout
unfolding check_retry_timeout
check-fits (pos n) (pos sleep) timeout (hn, hs, hp) h =
    rw (to_uint_small n hn)
      (below (n * sleep) timeout (rw (wrapped_product_small n sleep hn hs hp) at h))
check-fits (pos n) (negsuc sleep) timeout small h = elim small [ ]
check-fits (negsuc n) sleep timeout small h = elim small [ ]

pub checked :
    (info : RetryInfo) (t : WorkerType) (timeout : ℤ) (r : ConfiguredRetries)
    → get_and_check_retry_info info t timeout ≡ some r
    → (r ≡ info t) × (check_retry_timeout (info t).num_retries (info t).retry_sleep timeout ≡ true)
unfolding get_and_check_retry_info
checked info t timeout r h =
    elim (Bool-cases (check_retry_timeout (info t).num_retries (info t).retry_sleep timeout)) [
      | inl good ↦ (sym (some-injective _ _ (rw good at h)), good)
      | inr bad ↦ absurd (let e : none ≡ some r = rw bad at h in cc)
    ]

-- The time that the retries of a worker take, beside the tries themselves.
abbrev pub time_of : WorkerRetryConfig → ℕ
time_of r = r.num_retries * pos_part r.retry_sleep

abbrev pub no_retries : WorkerRetryConfig
no_retries = record { num_retries = 0; retry_sleep = pos 0 }

-- A time does not fit into a timeout.
abbrev pub Exceeds : ℕ → ℤ → Type 0
Exceeds time (pos timeout) = timeout < time
Exceeds time (negsuc _) = Unit

-- The configured retries of some worker do not fit into its timeout.
abbrev pub ExceedsSome : RetryInfo → List (WorkerType × ℤ) → Type 0
ExceedsSome info [] = ⊥
ExceedsSome info ((t, timeout) ∷ more) =
    Exceeds (time_of (stored_retries (info t))) timeout ⊎ ExceedsSome info more

-- An entry whose retries fit into a timeout, and that is the configured one, or that of no retries
-- where the configured ones of some worker do not fit.
abbrev pub IsFitting :
    RetryInfo → List (WorkerType × ℤ) → ℤ → WorkerType → WorkerRetryConfig → Type 0
IsFitting info all timeout t r =
    (time_of r ≤ pos_part timeout)
    × ((r ≡ stored_retries (info t)) ⊎ ((r ≡ no_retries) × ExceedsSome info all))

above : (p : ℕ) (timeout : ℤ) → ltb_ℤ timeout (pos p) ≡ true → Exceeds p timeout
above p (pos t) h = ground arith
above p (negsuc t) h = tt

exceeds :
    (n sleep timeout : ℤ)
    → AreSmall n sleep
    → check_retry_timeout n sleep timeout ≡ false
    → Exceeds (to_uint n * pos_part sleep) timeout
unfolding check_retry_timeout
exceeds (pos n) (pos sleep) timeout (hn, hs, hp) h =
    let late : ltb_ℤ timeout (wrapped_product (pos n) (pos sleep)) ≡ true = ground arith in
    rw (to_uint_small n hn)
      (above (n * sleep) timeout (rw (wrapped_product_small n sleep hn hs hp) at late))
exceeds (pos n) (negsuc sleep) timeout small h = elim small [ ]
exceeds (negsuc n) sleep timeout small h = elim small [ ]

refused :
    (info : RetryInfo) (t : WorkerType) (timeout : ℤ)
    → get_and_check_retry_info info t timeout ≡ none
    → check_retry_timeout (info t).num_retries (info t).retry_sleep timeout ≡ false
unfolding get_and_check_retry_info
refused info t timeout h =
    elim (Bool-cases (check_retry_timeout (info t).num_retries (info t).retry_sleep timeout)) [
      | inl good ↦ absurd (let e : some (info t) ≡ none = rw good at h in cc)
      | inr bad ↦ bad
    ]

-- Where the loop fails, the retries of some worker do not fit.
pub retry_loop-ExceedsSome :
    (info : RetryInfo) (args : List (WorkerType × ℤ)) (m : Dict WorkerType WorkerRetryConfig)
    → ((t : WorkerType) → IsSmall (info t))
    → retry_loop info args m ≡ none
    → ExceedsSome info args
unfolding retry_loop
retry_loop-ExceedsSome info [] m small h = cc
retry_loop-ExceedsSome info ((t, timeout) ∷ more) m small h =
    elim (Option-cases (get_and_check_retry_info info t timeout)) [
      | inl bad ↦ inl (
          exceeds (info t).num_retries (info t).retry_sleep timeout (small t)
            (refused info t timeout bad))
      | inr (r, good) ↦ inr (
          retry_loop-ExceedsSome info more (insert m t (stored_retries r)) small
            (rw (good, retry_loop) at h))
    ]
