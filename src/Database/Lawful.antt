-- ===== src/Database/Lawful.antt =====
-- The database keeps the promises of the interface that the notifications use.
use managed_tokens.Base.{ℕ, suc, ◌≡◌, refl, ◌∙◌, ap, String, Bool, arith}
use managed_tokens.Base.{Option, none, some, List, [], ◌∷◌, ◌==◌}
use managed_tokens.Base.{nat_comparable, string_comparable, Bool-cases, Option-cases, inl, inr}
use managed_tokens.Base.Dict.{Dict}
use mathlib.Core.Path.{subst}
use mathlib.Core.Option.{some-injective}
use managed_tokens.Notifications.ErrorCounts.Runs.{setup, at_node}
use managed_tokens.Notifications.ErrorCounts.Store.{IsLawful, upserted, upserted_push, row_count}
use managed_tokens.Database.{
  Value, text, Tables, id_of, affine, exec_all, same_id, insert_or_update_setup_errors,
  insert_or_update_push_errors, update_setup_errors_table, update_push_errors_table,
}
use managed_tokens.Database.Ids.{IsNameTable, lookup-id_of}
use managed_tokens.Database.Counts.{count_of, push_of, count_of-upsert, push_of-upsert}
use managed_tokens.Database.Transactions.{runner_committed, exec_all_inv}
use managed_tokens.Database.Validity.{IsValid}
use managed_tokens.Database.Store.{faults_now, database, count_in, IsRegistered}
use managed_tokens.Database.Reading.{Shows, ShowsNodes, setup_shown, push_shown}

module _ (numeral : String → Option ℕ) where
  -- A registered name has its own id: no other name is stored as it.
  same_registered :
      (m : Dict ℕ Value) (name other : String) (i : ℕ)
      → IsNameTable m
      → numeral name ≡ none
      → id_of m (affine numeral name) ≡ some i
      → same_id (some i) (id_of m (affine numeral other)) ≡ (name == other)
  same_registered m name other i u plain there =
      elim (Option-cases (id_of m (affine numeral other))) [
        | inl missing ↦ ground arith
        | inr (k, other_there) ↦ ground (
          arith,
          lookup-id_of m (affine numeral name) i u.ids there,
          lookup-id_of m (affine numeral other) k u.ids other_there,
        )
      ]

  record SetupKept (t t' : Tables) : Type 0 where
    services : t'.services ≡ t.services
    nodes : t'.nodes ≡ t.nodes
    push : t'.push_errors ≡ t.push_errors

  record PushKept (t t' : Tables) : Type 0 where
    services : t'.services ≡ t.services
    nodes : t'.nodes ≡ t.nodes
    setup_rows : t'.setup_errors ≡ t.setup_errors

  setup_kept :
      (fails : ℕ → Bool) (new : List (String × ℕ)) (t t' : Tables)
      → exec_all (insert_or_update_setup_errors numeral) fails 0 new t ≡ some t'
      → SetupKept t t'
  setup_kept fails new t t' h =
      exec_all_inv (insert_or_update_setup_errors numeral) (SetupKept t)
        (λ row t1 t2 e kept.
          subst (SetupKept t) (some-injective _ _ e)
            record { services = kept.services; nodes = kept.nodes; push = kept.push })
        fails 0 new t t' h record { services = refl; nodes = refl; push = refl }

  push_kept :
      (fails : ℕ → Bool) (new : List (String × String × ℕ)) (t t' : Tables)
      → exec_all (insert_or_update_push_errors numeral) fails 0 new t ≡ some t'
      → PushKept t t'
  push_kept fails new t t' h =
      exec_all_inv (insert_or_update_push_errors numeral) (PushKept t)
        (λ row t1 t2 e kept.
          subst (PushKept t) (some-injective _ _ e)
            record { services = kept.services; nodes = kept.nodes; setup_rows = kept.setup_rows })
        fails 0 new t t' h record { services = refl; nodes = refl; setup_rows = refl }

  setup_upserted :
      (fails : ℕ → Bool) (k : ℕ) (new : List (String × ℕ)) (t t' : Tables) (service : String)
      (i : ℕ)
      → IsNameTable t.services
      → numeral service ≡ none
      → id_of t.services (affine numeral service) ≡ some i
      → exec_all (insert_or_update_setup_errors numeral) fails k new t ≡ some t'
      → row_count (count_of t'.setup_errors i)
        ≡ upserted service new (row_count (count_of t.setup_errors i))
  unfolding exec_all
  setup_upserted fails k [] t t' service i u plain there h = ground arith
  setup_upserted fails k ((other, c) ∷ new) t t' service i u plain there h =
      elim (Bool-cases (fails k)) [
        | inl bad ↦ absurd (let e : none ≡ some t' = rw bad at h in cc)
        | inr fine ↦
            let id = id_of t.services (affine numeral other) in
            setup_upserted fails (suc k) new _ t' service i u plain there (rw fine at h)
            ∙ ap (upserted service new) (
                ground (
                  arith,
                  same_registered t.services service other i u plain there,
                  count_of-upsert t.setup_errors id c i,
                ))
      ]

  push_upserted :
      (fails : ℕ → Bool) (k : ℕ) (new : List (String × String × ℕ)) (t t' : Tables)
      (service node : String) (i j : ℕ)
      → IsNameTable t.services
      → IsNameTable t.nodes
      → numeral service ≡ none
      → numeral node ≡ none
      → id_of t.services (affine numeral service) ≡ some i
      → id_of t.nodes (affine numeral node) ≡ some j
      → exec_all (insert_or_update_push_errors numeral) fails k new t ≡ some t'
      → row_count (push_of t'.push_errors i j)
        ≡ upserted_push service node new (row_count (push_of t.push_errors i j))
  unfolding exec_all
  push_upserted fails k [] t t' service node i j u v plain plain_node there at_j h = ground arith
  push_upserted fails k ((other, other_node, c) ∷ new) t t' service node i j u v plain plain_node
        there at_j h =
      elim (Bool-cases (fails k)) [
        | inl bad ↦ absurd (let e : none ≡ some t' = rw bad at h in cc)
        | inr fine ↦
            let id = id_of t.services (affine numeral other) in
            let node_id = id_of t.nodes (affine numeral other_node) in
            push_upserted fails (suc k) new _ t' service node i j u v plain plain_node there at_j
              (rw fine at h)
            ∙ ap (upserted_push service node new) (
                ground (
                  arith,
                  same_registered t.services service other i u plain there,
                  same_registered t.nodes node other_node j v plain_node at_j,
                  push_of-upsert t.push_errors id node_id c i j,
                ))
      ]

  plain_id :
      (m : Dict ℕ Value) (name : String) (i : ℕ)
      → numeral name ≡ none
      → id_of m (text name) ≡ some i
      → id_of m (affine numeral name) ≡ some i
  plain_id m name i plain there = ground arith

  abbrev SetupUpdated : Tables → List (String × ℕ) → String → Tables → Type 0
  SetupUpdated t new service t' =
      (IsRegistered numeral t service setup
        → count_in numeral t' service setup
          ≡ upserted service new (count_in numeral t service setup))
      × ((node : String)
          → (count_in numeral t' service (at_node node) ≡ count_in numeral t service (at_node node))
            × (IsRegistered numeral t service (at_node node)
                → IsRegistered numeral t' service (at_node node)))

  abbrev PushUpdated : Tables → List (String × String × ℕ) → String → Tables → Type 0
  PushUpdated t new service t' =
      (count_in numeral t' service setup ≡ count_in numeral t service setup)
      × ((node : String)
          → IsRegistered numeral t service (at_node node)
          → count_in numeral t' service (at_node node)
            ≡ upserted_push service node new (count_in numeral t service (at_node node)))

  setup_updated_lem :
      (fails : ℕ → Bool) (new : List (String × ℕ)) (t t' : Tables) (service : String)
      → IsValid t
      → exec_all (insert_or_update_setup_errors numeral) fails 0 new t ≡ some t'
      → SetupUpdated t new service t'
  setup_updated_lem fails new t t' service valid h =
      let kept = setup_kept fails new t t' h in
      (
        λ (i, there, plain).
            let up = setup_upserted fails 0 new t t' service i valid.services plain there h in
            rw (kept.services, there) up,
        λ node. (
          rw (kept.services, kept.nodes, kept.push) refl,
          λ (i, j, there, at_j, plain, plain_node). (
            i,
            j,
            ap (λ m. id_of m (affine numeral service)) kept.services ∙ there,
            ap (λ m. id_of m (text node)) kept.nodes ∙ at_j,
            plain,
            plain_node,
          ),
        ),
      )

  push_updated_lem :
      (fails : ℕ → Bool) (new : List (String × String × ℕ)) (t t' : Tables) (service : String)
      → IsValid t
      → exec_all (insert_or_update_push_errors numeral) fails 0 new t ≡ some t'
      → PushUpdated t new service t'
  push_updated_lem fails new t t' service valid h =
      let kept = push_kept fails new t t' h in
      (
        rw (kept.services, kept.setup_rows) refl,
        λ node (i, j, there, at_j, plain, plain_node).
            let up =
              push_upserted fails 0 new t t' service node i j valid.services valid.nodes plain
                plain_node there (plain_id t.nodes node j plain_node at_j) h in
            rw (kept.services, kept.nodes, there, at_j) up,
      )

  -- The methods of the database, on valid tables and with any calls of the driver failing, keep
  -- the promises of the interface of the notifications, for the targets whose names are registered
  -- and are no numerals. What is stored for a target is the count in its row, or 0.
  pub database-IsLawful :
      IsLawful (database numeral) (λ s. count_in numeral s.0) (λ s. IsRegistered numeral s.0)
  unfolding update_setup_errors_table update_push_errors_table
  database-IsLawful = record {
    setup_rows = λ s service c h.
        subst (λ r. Shows r (count_in numeral s.0 service setup)) h
          (setup_shown numeral (faults_now s.2) s.0 s.1 service);
    setup_no_rows = λ s service h.
        subst (λ r. Shows r (count_in numeral s.0 service setup)) h
          (setup_shown numeral (faults_now s.2) s.0 s.1 service);
    push_rows = λ s service found h.
        subst (λ r. ShowsNodes r (λ node. count_in numeral s.0 service (at_node node))) h
          (push_shown numeral (faults_now s.2) s.0 s.1 service);
    push_no_rows = λ s service node h.
        subst (λ r. ShowsNodes r (λ node. count_in numeral s.0 service (at_node node))) h
          (push_shown numeral (faults_now s.2) s.0 s.1 service) node;
    setup_updated = λ s s' new service h. subst (SetupUpdated s.0 new service) (ap (λ p. p.0.0) h) (
        setup_updated_lem (faults_now s.2).exec new s.0 _ service s.1 (
          runner_committed (insert_or_update_setup_errors numeral) (faults_now s.2) new s.0
            (ap (λ p. p.1) h)));
    push_updated = λ s s' new service h. subst (PushUpdated s.0 new service) (ap (λ p. p.0.0) h) (
        push_updated_lem (faults_now s.2).exec new s.0 _ service s.1 (
          runner_committed (insert_or_update_push_errors numeral) (faults_now s.2) new s.0
            (ap (λ p. p.1) h)));
  }
