-- ===== src/Database/Remembering.antt =====
-- The run of a program on the database: the names are registered, and the counts of a service are
-- loaded, adjusted, saved and loaded again.
use managed_tokens.Base.{ℕ, suc, ◌≡◌, refl, sym, ◌∙◌, ap, String, Bool, true, arith}
use managed_tokens.Base.{Option, none, some, List, [], ◌∷◌, ◌==◌, contains}
use managed_tokens.Base.{nat_comparable, string_comparable, Bool-cases, inl, inr}
use mathlib.Core.Path.{subst}
use mathlib.Core.Option.{some-injective}
use managed_tokens.Notifications.{Notification}
use managed_tokens.Notifications.ErrorCounts.{ServiceErrorCounts}
use managed_tokens.Notifications.ErrorCounts.Runs.{at_node, value_of, adjust_all}
use managed_tokens.Notifications.ErrorCounts.Rows.{next_value}
use managed_tokens.Notifications.ErrorCounts.Store.{
  set_error_counts_by_service, save_error_counts_in_database,
}
use managed_tokens.Notifications.ErrorCounts.Cycle.{load-save}
use managed_tokens.Database.{
  Value, text, Tables, Faults, id_of, affine, exec_all, insert_into_services_table,
  insert_into_nodes_table, update_services, update_nodes,
}
use managed_tokens.Database.Ids.{id_of-insert_name, id_of-insert_name_self}
use managed_tokens.Database.Transactions.{runner_committed, runner_inv, exec_all_inv}
use managed_tokens.Database.Validity.{IsValid, update_services-IsValid, update_nodes-IsValid}
use managed_tokens.Database.Store.{Session, database, count_in, IsRegistered}
use managed_tokens.Database.Lawful.{database-IsLawful}

module _ (numeral : String → Option ℕ) where
  abbrev pub HasId : List (ℕ × Value) → String → Type 0
  HasId m name = (i : ℕ) × (id_of m (affine numeral name) ≡ some i)

  as_text :
      (m : List (ℕ × Value)) (name : String) (i : ℕ)
      → numeral name ≡ none
      → id_of m (affine numeral name) ≡ some i
      → id_of m (text name) ≡ some i
  as_text m name i plain there = ground arith

  services_keep :
      (fails : ℕ → Bool) (k : ℕ) (new : List String) (t t' : Tables) (name : String)
      → exec_all (insert_into_services_table numeral) fails k new t ≡ some t'
      → HasId t.services name
      → HasId t'.services name
  services_keep fails k new t t' name h =
      exec_all_inv (insert_into_services_table numeral) (λ x. HasId x.services name)
        (λ row t1 t2 e (i, there).
          subst (λ x. HasId x.services name) (some-injective _ _ e)
            (i, id_of-insert_name numeral row t1.services _ i there))
        fails k new t t' h

  nodes_keep :
      (fails : ℕ → Bool) (k : ℕ) (new : List String) (t t' : Tables) (name : String)
      → exec_all (insert_into_nodes_table numeral) fails k new t ≡ some t'
      → HasId t.nodes name
      → HasId t'.nodes name
  nodes_keep fails k new t t' name h =
      exec_all_inv (insert_into_nodes_table numeral) (λ x. HasId x.nodes name)
        (λ row t1 t2 e (i, there).
          subst (λ x. HasId x.nodes name) (some-injective _ _ e)
            (i, id_of-insert_name numeral row t1.nodes _ i there))
        fails k new t t' h

  services_kept :
      (faults : Faults) (nodes : List String) (t : Tables)
      → (update_nodes numeral faults nodes t).0.services ≡ t.services
  unfolding update_nodes
  services_kept faults nodes t =
      runner_inv (insert_into_nodes_table numeral) (λ x. x.services ≡ t.services)
        (λ row t1 t2 e h. subst (λ x. x.services ≡ t.services) (some-injective _ _ e) h) faults
        nodes t refl

  services_registered :
      (fails : ℕ → Bool) (k : ℕ) (new : List String) (t t' : Tables) (name : String)
      → exec_all (insert_into_services_table numeral) fails k new t ≡ some t'
      → contains new name ≡ true
      → HasId t'.services name
  unfolding exec_all
  services_registered fails k [] t t' name h c = cc
  services_registered fails k (other ∷ new) t t' name h c = elim (Bool-cases (fails k)) [
    | inl bad ↦ absurd (let e : none ≡ some t' = rw bad at h in cc)
    | inr fine ↦ elim (Bool-cases (name == other)) [
      | inl match ↦
          let e : name ≡ other = ground arith in
          services_keep fails (suc k) new _ t' name (rw fine at h)
            (subst (HasId _) (sym e) (id_of-insert_name_self numeral other t.services))
      | inr differ ↦ services_registered fails (suc k) new _ t' name (rw fine at h) (rw differ at c)
    ]
  ]

  nodes_registered :
      (fails : ℕ → Bool) (k : ℕ) (new : List String) (t t' : Tables) (name : String)
      → exec_all (insert_into_nodes_table numeral) fails k new t ≡ some t'
      → contains new name ≡ true
      → HasId t'.nodes name
  unfolding exec_all
  nodes_registered fails k [] t t' name h c = cc
  nodes_registered fails k (other ∷ new) t t' name h c = elim (Bool-cases (fails k)) [
    | inl bad ↦ absurd (let e : none ≡ some t' = rw bad at h in cc)
    | inr fine ↦ elim (Bool-cases (name == other)) [
      | inl match ↦
          let e : name ≡ other = ground arith in
          nodes_keep fails (suc k) new _ t' name (rw fine at h)
            (subst (HasId _) (sym e) (id_of-insert_name_self numeral other t.nodes))
      | inr differ ↦ nodes_registered fails (suc k) new _ t' name (rw fine at h) (rw differ at c)
    ]
  ]

  module _ (service_faults node_faults : Faults) (services nodes : List String) (t : Tables) where
    -- The tables after the services and then the nodes are registered.
    abbrev pub after_registering : Tables
    after_registering =
        (update_nodes numeral node_faults nodes
          (update_services numeral service_faults services t).0).0

    -- The names that are registered without an error, and are no numerals, are known.
    registered :
        (service node : String)
        → (update_services numeral service_faults services t).1 ≡ true
        → (update_nodes numeral node_faults nodes
            (update_services numeral service_faults services t).0).1
          ≡ true
        → contains services service ≡ true
        → contains nodes node ≡ true
        → numeral service ≡ none
        → numeral node ≡ none
        → IsRegistered numeral after_registering service (at_node node)
    unfolding update_services update_nodes
    registered service node services_ok nodes_ok has_service has_node plain plain_node =
        let first =
          runner_committed (insert_into_services_table numeral) service_faults services t
            services_ok in
        let second =
          runner_committed (insert_into_nodes_table numeral) node_faults nodes _ nodes_ok in
        let (i, there) =
          services_registered service_faults.exec 0 services t _ service first has_service in
        let (j, at_j) = nodes_registered node_faults.exec 0 nodes _ _ node second has_node in
        let kept =
          services_kept node_faults nodes (update_services numeral service_faults services t).0 in
        (
          i,
          j,
          ap (λ m. id_of m (affine numeral service)) kept ∙ there,
          as_text _ node j plain_node at_j,
          plain,
          plain_node,
        )

    abbrev pub session : IsValid t → List Faults → Session
    session valid faults = (
      after_registering,
      update_nodes-IsValid numeral node_faults nodes _
          (update_services-IsValid numeral service_faults services t valid),
      faults,
    )

    -- Where the services and the nodes were registered without an error, in valid tables, and the
    -- counts of a service are loaded, adjusted for each notification and saved without an error,
    -- whatever other calls fail, then the count of a node that the next run loads is 0 if the run
    -- saw no error of the node, and else the count at the end of the run. The names of the service
    -- and of the node are among those registered and are no numerals.
    pub registered_counts_survive :
        (service node : String) (minimum : ℕ) (ns : List Notification) (valid : IsValid t)
        (faults : List Faults) (ec ec' : ServiceErrorCounts)
        → (update_services numeral service_faults services t).1 ≡ true
        → (update_nodes numeral node_faults nodes
            (update_services numeral service_faults services t).0).1
          ≡ true
        → contains services service ≡ true
        → contains nodes node ≡ true
        → numeral service ≡ none
        → numeral node ≡ none
        → set_error_counts_by_service (database numeral) service (some (session valid faults))
          ≡ some ec
        → (save_error_counts_in_database
            (database numeral)
            service
            (session valid faults)
            (adjust_all minimum ec ns).0).1
          ≡ true
        → set_error_counts_by_service (database numeral) service (
            some
              (save_error_counts_in_database
                (database numeral)
                service
                (session valid faults)
                (adjust_all minimum ec ns).0).0)
          ≡ some ec'
        → value_of (at_node node) ec' ≡ next_value minimum ec ns (at_node node)
    registered_counts_survive service node minimum ns valid faults ec ec' services_ok nodes_ok
          has_service has_node plain plain_node loaded saved again =
        let s' =
          (save_error_counts_in_database (database numeral) service (session valid faults)
            (adjust_all minimum ec ns).0).0 in
        load-save (database numeral) (λ s. count_in numeral s.0) (λ s. IsRegistered numeral s.0)
          (database-IsLawful numeral) service minimum ns (session valid faults) s' ec ec'
          (at_node node)
          (registered service node services_ok nodes_ok has_service has_node plain plain_node)
          loaded (ap (λ b. (s', b)) saved) again
