-- ===== src/TokenPush/Configuration/Retries/Fitting.antt =====
-- The retries of a worker fit into its timeout.
use managed_tokens.Base.{◌≤◌, ◌≡◌, refl, ap, ◌⊎◌, sym, ◌∙◌, true}
use managed_tokens.Base.{none, some, List, [], ◌∷◌, ◌==◌, if◌then◌else◌, arith}
use managed_tokens.Base.{nat_comparable, Bool-cases, Option-cases, inl, inr}
use mathlib.Core.Path.{subst}
use mathlib.Core.Option.{some-injective}
use managed_tokens.Base.Integers.{ℤ, pos, pos_part}
use managed_tokens.Base.Dict.{Dict, lookup, insert, lookup-insert}
use managed_tokens.Worker.Config.{WorkerType, push_tokens}
use managed_tokens.TokenPush.Configuration.Retries.{
  WorkerRetryConfig, stored_retries, retry_args, RetryInfo, get_and_check_retry_info, retry_loop,
  create_worker_retry_map, set_default_worker_retry_map, worker_retry_map,
}
use managed_tokens.TokenPush.Configuration.Retries.Checks.{
  IsSmall, time_of, no_retries, ExceedsSome, IsFitting, check-fits, checked, retry_loop-ExceedsSome,
}

module _ (info : RetryInfo) (all : List (WorkerType × ℤ)) (limit : WorkerType → ℤ) where
  abbrev AllFit : Dict WorkerType WorkerRetryConfig → Type 0
  AllFit m =
      (t : WorkerType) (r : WorkerRetryConfig)
      → lookup m t ≡ some r
      → IsFitting info all (limit t) t r

  abbrev AreLimits : List (WorkerType × ℤ) → Type 0
  AreLimits [] = Unit
  AreLimits ((t, timeout) ∷ more) = (pos_part timeout ≤ pos_part (limit t)) × AreLimits more

  insert-AllFit :
      (m : Dict WorkerType WorkerRetryConfig) (t : WorkerType) (r : WorkerRetryConfig)
      → IsFitting info all (limit t) t r
      → AllFit m
      → AllFit (insert m t r)
  insert-AllFit m t r fits k u q h = elim (Bool-cases (u == t)) [
    | inl match ↦
        let e : u ≡ t = ground arith in
        let f : r ≡ q = some-injective _ _ (rw match at (sym (lookup-insert m t u r) ∙ h)) in
        subst (λ x. IsFitting info all (limit u) u x) f
          (subst (λ x. IsFitting info all (limit x) x r) (sym e) fits)
    | inr differ ↦ k u q (rw differ at (sym (lookup-insert m t u r) ∙ h))
  ]

  retry_loop-AllFit :
      (args : List (WorkerType × ℤ)) (m m' : Dict WorkerType WorkerRetryConfig)
      → ((t : WorkerType) → IsSmall (info t))
      → AreLimits args
      → AllFit m
      → retry_loop info args m ≡ some m'
      → AllFit m'
  unfolding retry_loop
  retry_loop-AllFit [] m m' small limits k h = subst AllFit (some-injective _ _ h) k
  retry_loop-AllFit ((t, timeout) ∷ more) m m' small (first, limits) k h =
      elim (Option-cases (get_and_check_retry_info info t timeout)) [
        | inl bad ↦ absurd (let e : none ≡ some m' = rw (bad, retry_loop) at h in cc)
        | inr (r, good) ↦
            let (same_info, passed) = checked info t timeout r good in
            retry_loop-AllFit more (insert m t (stored_retries r)) m' small limits
              (insert-AllFit m t (stored_retries r)
                (
                  subst (λ x. time_of (stored_retries x) ≤ pos_part (limit t)) (sym same_info)
                      (omega (
                        arith,
                        check-fits (info t).num_retries (info t).retry_sleep timeout (small t)
                            passed,
                      )),
                  inl (ap stored_retries same_info),
                )
                k)
              (rw (good, retry_loop) at h)
      ]

  none-AllFit : AllFit []
  unfolding lookup
  none-AllFit t r h = cc

  default-AllFit : ExceedsSome info all → AllFit set_default_worker_retry_map
  unfolding set_default_worker_retry_map insert nat_comparable
  default-AllFit some_exceeds =
      insert-AllFit [] push_tokens no_retries (omega arith, inr (refl, some_exceeds)) none-AllFit

-- The timeout that the retries of a worker are checked against.
abbrev pub timeout_of : List (WorkerType × ℤ) → WorkerType → ℤ
timeout_of [] t = pos 0
timeout_of ((u, timeout) ∷ more) t = if t == u then timeout else timeout_of more t

-- The worker has an entry.
abbrev pub HasEntry : Dict WorkerType WorkerRetryConfig → WorkerType → Type 0
HasEntry m t = (r : WorkerRetryConfig) × (lookup m t ≡ some r)

HasEntry-insert :
    (m : Dict WorkerType WorkerRetryConfig) (t u : WorkerType) (r : WorkerRetryConfig)
    → HasEntry m t
    → HasEntry (insert m u r) t
HasEntry-insert m t u r (old, there) = elim (Bool-cases (t == u)) [
  | inl same ↦ (r, lookup-insert m u t r ∙ rw same refl)
  | inr other ↦ (old, lookup-insert m u t r ∙ rw other there)
]

inserted-HasEntry :
    (m : Dict WorkerType WorkerRetryConfig) (t u : WorkerType) (r : WorkerRetryConfig)
    → (t == u) ≡ true
    → HasEntry (insert m u r) t
inserted-HasEntry m t u r same = (r, lookup-insert m u t r ∙ rw same refl)

abbrev IsAmong : WorkerType → List (WorkerType × ℤ) → Type 0
IsAmong t [] = ⊥
IsAmong t ((u, _) ∷ more) = ((t == u) ≡ true) ⊎ IsAmong t more

default-HasEntry : HasEntry set_default_worker_retry_map push_tokens
unfolding set_default_worker_retry_map insert lookup nat_comparable
default-HasEntry = (no_retries, refl)

retry_loop-HasEntry :
    (info : RetryInfo) (args : List (WorkerType × ℤ)) (m m' : Dict WorkerType WorkerRetryConfig)
    (t : WorkerType)
    → HasEntry m t ⊎ IsAmong t args
    → retry_loop info args m ≡ some m'
    → HasEntry m' t
unfolding retry_loop
retry_loop-HasEntry info [] m m' t (inl there) h =
    subst (λ x. HasEntry x t) (some-injective _ _ h) there
retry_loop-HasEntry info [] m m' t (inr among) h = elim among [ ]
retry_loop-HasEntry info ((u, timeout) ∷ more) m m' t due h =
    elim (Option-cases (get_and_check_retry_info info u timeout)) [
      | inl bad ↦ absurd (let e : none ≡ some m' = rw (bad, retry_loop) at h in cc)
      | inr (r, good) ↦
          retry_loop-HasEntry info more (insert m u (stored_retries r)) m' t
            (elim due [
              | inl there ↦ inl (HasEntry-insert m t u (stored_retries r) there)
              | inr (inl same) ↦ inl (inserted-HasEntry m t u (stored_retries r) same)
              | inr (inr later) ↦ inr later
            ])
            (rw (good, retry_loop) at h)
    ]

pub worker_retry_map_fits :
    (info : RetryInfo) (kerberos vault_storer ping push : ℤ) (t : WorkerType)
    (r : WorkerRetryConfig)
    → ((u : WorkerType) → IsSmall (info u))
    → lookup (worker_retry_map info (retry_args kerberos vault_storer ping push)) t ≡ some r
    → let args = retry_args kerberos vault_storer ping push in
      IsFitting info args (timeout_of args t) t r
      × HasEntry (worker_retry_map info args) push_tokens
unfolding worker_retry_map create_worker_retry_map nat_comparable
worker_retry_map_fits info kerberos vault_storer ping push t r small h =
    elim (Option-cases (create_worker_retry_map info args)) [
      | inl bad ↦ (
        default-AllFit info args (timeout_of args) (retry_loop-ExceedsSome info args [] small bad) t
            r (rw (bad, worker_retry_map) at h),
        rw (bad, worker_retry_map) default-HasEntry,
      )
      | inr (m, good) ↦ (
        retry_loop-AllFit info args (timeout_of args) args [] m small (omega arith)
            (none-AllFit info args (timeout_of args)) good t r (rw (good, worker_retry_map) at h),
        rw (good, worker_retry_map)
            (retry_loop-HasEntry info args [] m push_tokens (inr (inr (inr (inr (inr (inl refl))))))
              good),
      )
    ]
  where
    args : List (WorkerType × ℤ)
    args = retry_args kerberos vault_storer ping push
