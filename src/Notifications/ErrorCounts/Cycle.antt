-- ===== src/Notifications/ErrorCounts/Cycle.antt =====
-- A run of the program, as the counters see it: load, count the notifications, save, load again.
use managed_tokens.Base.{ℕ, ◌≡◌, refl, ◌∙◌, String, Bool, true, false}
use managed_tokens.Base.{arith, ap, Option, none, some, List, [], ◌∷◌, string_comparable}
use managed_tokens.Base.{Bool-cases, inl, inr, sym}
use mathlib.Core.Path.{subst}
use mathlib.Core.Bool.{false≢true}
use mathlib.Core.Option.{some-injective}
use managed_tokens.Base.Dict.{Dict, lookup, NodupKeys}
use managed_tokens.Notifications.{Notification}
use managed_tokens.Notifications.ErrorCounts.{ErrorCount, ServiceErrorCounts}
use managed_tokens.Notifications.ErrorCounts.Runs.{
  Target, setup, at_node, stored, value_of, adjust_all,
}
use managed_tokens.Notifications.ErrorCounts.Changes.{entry, is_changed, adjust_all-NodupKeys}
use managed_tokens.Notifications.ErrorCounts.Store.{
  Reply, rows, no_rows, failed, CountStore, IsLawful, upserted_push, rows_to_store,
  should_store_value, populate_setup, populate_push, set_error_counts_by_service, store_push,
  store_setup, save_error_counts_in_database,
}
use managed_tokens.Notifications.ErrorCounts.Rows.{
  lookup-add_rows, add_rows-NodupKeys, or_value, stored_as, upserted_push-rows_to_store, next_value,
  stored_as-next, combine_inv,
}

module _ (D : CountStore) (view : D.State → String → Target → ℕ)
    (Known : D.State → String → Target → Type 0) (L : IsLawful D view Known) where
  -- Counts as they are loaded for a service.
  record IsLoaded (service : String) (s : D.State) (ec : ServiceErrorCounts) : Type 0 where
    agrees : (t : Target) → value_of t ec ≡ view s service t
    unchanged : (t : Target) → is_changed (entry t ec) ≡ false
    nodup : NodupKeys ec.push_errors

  abbrev PushLoaded : String → D.State → Dict String ErrorCount → Type 0
  PushLoaded service s m =
      NodupKeys m
      × ((node : String)
          → (stored (lookup m node) ≡ view s service (at_node node))
            × (is_changed (lookup m node) ≡ false))

  loaded_push :
      (service : String) (s : D.State) (r : Reply (List (String × ℕ))) (m : Dict String ErrorCount)
      → D.get_push_errors_info_by_service s service ≡ r
      → populate_push r ≡ some m
      → PushLoaded service s m
  unfolding lookup
  loaded_push service s (rows found) m q e = subst (PushLoaded service s) (some-injective _ _ e) (
    add_rows-NodupKeys found [] tt,
    λ node.
        let (u, at) = L.push_rows s service found q in
        ground (arith, lookup-add_rows found [] node u, at node),
  )
  loaded_push service s no_rows m q e =
      subst (PushLoaded service s) (some-injective _ _ e)
        (tt, λ node. (sym (L.push_no_rows s service node q), refl))
  loaded_push service s failed m q e = cc

  loaded_setup :
      (service : String) (s : D.State) (q : Reply ℕ) (c : ErrorCount)
      → D.get_setup_errors_info_by_service s service ≡ q
      → populate_setup q ≡ some c
      → (c.value ≡ view s service setup) × (c.changed ≡ false)
  loaded_setup service s (rows n) c p e = ground (arith, L.setup_rows s service n p)
  loaded_setup service s no_rows c p e = ground (arith, L.setup_no_rows s service p)
  loaded_setup service s failed c p e = cc

  set_error_counts-IsLoaded :
      (service : String) (s : D.State) (ec : ServiceErrorCounts)
      → set_error_counts_by_service D service (some s) ≡ some ec
      → IsLoaded service s ec
  unfolding set_error_counts_by_service
  set_error_counts-IsLoaded service s ec h =
      let (p, q) = combine_inv _ _ ec h in
      let (value, changed) = loaded_setup service s _ ec.setup_errors refl p in
      let (u, at) = loaded_push service s _ ec.push_errors refl q in
      record {
        agrees = elim [ setup ↦ value | at_node node ↦ (at node).0 ];
        unchanged = elim [ setup ↦ changed | at_node node ↦ (at node).1 ];
        nodup = u;
      }

  view-store_setup :
      (service : String) (o : Option ℕ) (s s' : D.State)
      → store_setup D service o s ≡ (s', true)
      → (Known s service setup → view s' service setup ≡ or_value o (view s service setup))
        × ((node : String)
            → (view s' service (at_node node) ≡ view s service (at_node node))
              × (Known s service (at_node node) → Known s' service (at_node node)))
  unfolding store_setup
  view-store_setup service none s s' h =
      let e : s ≡ s' = ap (λ p. p.0) h in
      (
        λ _. ap (λ x. view x service setup) (sym e),
        λ node. (
          ap (λ x. view x service (at_node node)) (sym e),
          subst (λ x. Known x service (at_node node)) e,
        ),
      )
  view-store_setup service (some v) s s' h =
      let (at_setup, at_nodes) = L.setup_updated s s' ((service, v) ∷ []) service h in
      (λ known. let eq = at_setup known in ground arith, at_nodes)

  view-store_push :
      (service : String) (more : List (String × String × ℕ)) (s s' : D.State)
      → store_push D more s ≡ (s', true)
      → (view s' service setup ≡ view s service setup)
        × ((node : String)
            → Known s service (at_node node)
            → view s' service (at_node node)
              ≡ upserted_push service node more (view s service (at_node node)))
  unfolding store_push
  view-store_push service [] s s' h =
      let e : s ≡ s' = ap (λ p. p.0) h in
      (
        ap (λ x. view x service setup) (sym e),
        λ node _. ap (λ x. view x service (at_node node)) (sym e),
      )
  view-store_push service (r ∷ more) s s' h = L.push_updated s s' (r ∷ more) service h

  view-stores :
      (service : String) (ec : ServiceErrorCounts) (s s1 s' : D.State) (t : Target)
      → NodupKeys ec.push_errors
      → Known s service t
      → store_setup D service (should_store_value ec.setup_errors) s ≡ (s1, true)
      → store_push D (rows_to_store service ec.push_errors) s1 ≡ (s', true)
      → view s' service t ≡ stored_as (entry t ec) (view s service t)
  view-stores service ec s s1 s' setup u known h k =
      (view-store_push service _ s1 s' k).0 ∙ (view-store_setup service _ s s1 h).0 known
  view-stores service ec s s1 s' (at_node node) u known h k =
      let (same_view, kept) = (view-store_setup service _ s s1 h).1 node in
      (view-store_push service _ s1 s' k).1 node (kept known)
      ∙ upserted_push-rows_to_store service node ec.push_errors _ u
      ∙ ap (stored_as (lookup ec.push_errors node)) same_view

  -- What a successful save leaves in the database for each target of the service.
  view-save :
      (service : String) (ec : ServiceErrorCounts) (s s' : D.State) (t : Target)
      → NodupKeys ec.push_errors
      → Known s service t
      → save_error_counts_in_database D service s ec ≡ (s', true)
      → view s' service t ≡ stored_as (entry t ec) (view s service t)
  unfolding save_error_counts_in_database
  view-save service ec s s' t u known h =
      let (s1, saved) = store_setup D service (should_store_value ec.setup_errors) s in
      elim (Bool-cases saved) [
        | inl ok ↦ view-stores service ec s s1 s' t u known (ap (λ b. (s1, b)) ok) (rw ok at h)
        | inr not_ok ↦
            let bad : ◌≡◌ {A = D.State × Bool} (s1, false) (s', true) = rw not_ok at h in
            absurd (false≢true (ap (λ p. p.1) bad))
      ]

  -- A whole run, where loading, saving and loading again succeed, over a lawful store: the count
  -- that the next run loads is, for each target that the store knows, 0 if the run saw no error of
  -- the target, and else the count at the end of the run.
  pub load-save :
      (service : String) (minimum : ℕ) (ns : List Notification) (s s' : D.State)
      (ec ec' : ServiceErrorCounts) (t : Target)
      → Known s service t
      → set_error_counts_by_service D service (some s) ≡ some ec
      → save_error_counts_in_database D service s (adjust_all minimum ec ns).0 ≡ (s', true)
      → set_error_counts_by_service D service (some s') ≡ some ec'
      → value_of t ec' ≡ next_value minimum ec ns t
  load-save service minimum ns s s' ec ec' t known loaded saved again =
      let before = set_error_counts-IsLoaded service s ec loaded in
      let u = adjust_all-NodupKeys ns ec minimum before.nodup in
      (set_error_counts-IsLoaded service s' ec' again).agrees t
      ∙ view-save service (adjust_all minimum ec ns).0 s s' t u known saved
      ∙ ap (stored_as (entry t (adjust_all minimum ec ns).0)) (sym (before.agrees t))
      ∙ stored_as-next ec ns minimum t (before.unchanged t)
