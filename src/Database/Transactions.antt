-- ===== src/Database/Transactions.antt =====
-- What holds of a transaction, from what holds of its statement.
use managed_tokens.Base.{ℕ, suc, ◌≡◌, ap, sym, ◌∙◌, Bool, true, false, List, [], ◌∷◌}
use managed_tokens.Base.{Option, none, some, inl, inr, Bool-cases, Option-cases, ◌⊎◌}
use mathlib.Core.Path.{subst}
use mathlib.Core.Option.{some-injective}
use managed_tokens.Database.{Tables, Faults, exec_all, insert_values_transaction_runner}

module _ {A : Type 0} (statement : A → Tables → Option Tables) where
  -- A transaction commits all of its statements, or leaves the tables as they were.
  pub runner_cases :
      (faults : Faults) (rows : List A) (t : Tables)
      → (insert_values_transaction_runner statement faults rows t ≡ (t, false))
        ⊎ ((t' : Tables) × (exec_all statement faults.exec 0 rows t ≡ some t')
            × (insert_values_transaction_runner statement faults rows t ≡ (t', true)))
  unfolding insert_values_transaction_runner
  runner_cases faults rows t = elim (Bool-cases faults.begin) [
    | inl b ↦ inl (rw b)
    | inr b ↦ elim (Bool-cases faults.prepare) [
      | inl p ↦ inl (rw (b, p))
      | inr p ↦ elim (Option-cases (exec_all statement faults.exec 0 rows t)) [
        | inl e ↦ inl (rw (b, p, e))
        | inr (t', e) ↦ elim (Bool-cases faults.commit) [
          | inl c ↦ inl (rw (b, p, e, c))
          | inr c ↦ inr (t', e, rw (b, p, e, c))
        ]
      ]
    ]
  ]

  pub runner_committed :
      (faults : Faults) (rows : List A) (t : Tables)
      → (insert_values_transaction_runner statement faults rows t).1 ≡ true
      → exec_all statement faults.exec 0 rows t
        ≡ some (insert_values_transaction_runner statement faults rows t).0
  runner_committed faults rows t h = elim (runner_cases faults rows t) [
    | inl e ↦ absurd (let bad : false ≡ true = sym (ap (λ p. p.1) e) ∙ h in cc)
    | inr (t', done, e) ↦ done ∙ ap (λ p. some p.0) (sym e)
  ]

  module _ (P : Tables → Type 0)
      (keep : (row : A) (t t' : Tables) → statement row t ≡ some t' → P t → P t') where
    pub exec_all_inv :
        (fails : ℕ → Bool) (i : ℕ) (rows : List A) (t t' : Tables)
        → exec_all statement fails i rows t ≡ some t'
        → P t
        → P t'
    unfolding exec_all
    exec_all_inv fails i [] t t' h p = subst P (some-injective _ _ h) p
    exec_all_inv fails i (row ∷ rows) t t' h p = elim (Bool-cases (fails i)) [
      | inl bad ↦ absurd (let e : none ≡ some t' = rw bad at h in cc)
      | inr fine ↦ elim (Option-cases (statement row t)) [
        | inl bad ↦ absurd (let e : none ≡ some t' = rw (fine, bad) at h in cc)
        | inr (t1, done) ↦
            exec_all_inv fails (suc i) rows t1 t' (rw (fine, done) at h) (keep row t t1 done p)
      ]
    ]

    pub runner_inv :
        (faults : Faults) (rows : List A) (t : Tables)
        → P t
        → P (insert_values_transaction_runner statement faults rows t).0
    runner_inv faults rows t p = elim (runner_cases faults rows t) [
      | inl e ↦ subst P (ap (λ q. q.0) (sym e)) p
      | inr (t', done, e) ↦
          subst P (ap (λ q. q.0) (sym e)) (exec_all_inv faults.exec 0 rows t t' done p)
    ]
