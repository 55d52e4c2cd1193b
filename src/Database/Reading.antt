-- ===== src/Database/Reading.antt =====
-- What the queries of the counts return, in valid tables.
use managed_tokens.Base.{ℕ, ◌≡◌, ◌≢◌, refl, sym, ap, String}
use managed_tokens.Base.{Option, some, List, [], ◌∷◌}
use managed_tokens.Base.{nat_comparable, string_comparable, Bool-cases, Option-cases, inl, inr}
use managed_tokens.Base.Dict.{lookup, NodupKeys}
use managed_tokens.Notifications.ErrorCounts.Runs.{setup, at_node}
use managed_tokens.Notifications.ErrorCounts.Store.{Reply, rows, row_count}
use managed_tokens.Notifications.ErrorCounts.Store as Counts
use managed_tokens.Database.{Value, text, integer, same, Tables, Faults, id_of, affine}
use managed_tokens.Database.Rows.{
  Result, ok, no_rows, wrong_structure, wrong_type, driver_error, unpack_data, unpack_push,
  unpack_name_and_number, ◌>>=◌,
}
use managed_tokens.Database.Queries.{
  get_setup_errors_info_by_service, get_push_errors_info_by_service, join_push, some_rows,
  first_unpacked,
}
use managed_tokens.Database.Counts.{count_of}
use managed_tokens.Database.Joins.{
  count_at, joined, join_setup_absent, join_setup_lem, join_push_absent, join_push_lem,
  join_push-NodupKeys,
}
use managed_tokens.Database.Validity.{IsValid}
use managed_tokens.Database.Store.{setup_reply, push_reply, count_in}

-- A reply shows a count: no row shows 0, and a failure shows nothing.
abbrev pub Shows : Reply ℕ → ℕ → Type 0
Shows (rows c) n = n ≡ c
Shows Counts.no_rows n = n ≡ 0
Shows Counts.failed n = Unit

-- A reply shows the counts of all nodes.
abbrev pub ShowsNodes : Reply (List (String × ℕ)) → (String → ℕ) → Type 0
ShowsNodes (rows found) count =
    NodupKeys found × ((node : String) → count node ≡ row_count (lookup found node))
ShowsNodes Counts.no_rows count = (node : String) → count node ≡ 0
ShowsNodes Counts.failed count = Unit

-- The end of the query of one setup count.
one_shown :
    (v : Value) (c : ℕ)
    → Shows
        (setup_reply (unpack_data unpack_name_and_number (joined v (some c)) >>= first_unpacked))
        c
unfolding unpack_data
one_shown (text s) c = refl
one_shown (integer n) c = tt

unpack_push-ne-no_rows : (row : List Value) → unpack_push row ≢ no_rows
unpack_push-ne-no_rows [] h = cc
unpack_push-ne-no_rows (text s ∷ []) h = cc
unpack_push-ne-no_rows (integer s ∷ []) h = cc
unpack_push-ne-no_rows (text s ∷ text n ∷ []) h = cc
unpack_push-ne-no_rows (text s ∷ integer n ∷ []) h = cc
unpack_push-ne-no_rows (integer s ∷ n ∷ []) h = cc
unpack_push-ne-no_rows (text s ∷ text n ∷ integer c ∷ []) h = cc
unpack_push-ne-no_rows (text s ∷ text n ∷ text c ∷ []) h = cc
unpack_push-ne-no_rows (text s ∷ integer n ∷ c ∷ []) h = cc
unpack_push-ne-no_rows (integer s ∷ n ∷ c ∷ []) h = cc
unpack_push-ne-no_rows (text s ∷ text n ∷ integer c ∷ _ ∷ _) h = cc
unpack_push-ne-no_rows (text s ∷ text n ∷ text c ∷ _ ∷ _) h = cc
unpack_push-ne-no_rows (text s ∷ integer n ∷ c ∷ _ ∷ _) h = cc
unpack_push-ne-no_rows (integer s ∷ n ∷ c ∷ _ ∷ _) h = cc

bind-ne-no_rows :
    {A B : Type 0} (r : Result A) (f : A → Result B)
    → r ≢ no_rows
    → ((a : A) → f a ≢ no_rows)
    → (r >>= f) ≢ no_rows
bind-ne-no_rows (ok a) f p q h = q a h
bind-ne-no_rows no_rows f p q h = p refl
bind-ne-no_rows wrong_structure f p q h = cc
bind-ne-no_rows wrong_type f p q h = cc
bind-ne-no_rows driver_error f p q h = cc

-- Unpacking returns rows or an error of their form.
unpack-ne-no_rows : (found : List (List Value)) → unpack_data unpack_push found ≢ no_rows
unfolding unpack_data
unpack-ne-no_rows [] h = cc
unpack-ne-no_rows (row ∷ more) h =
    bind-ne-no_rows (unpack_push row) _ (unpack_push-ne-no_rows row)
      (λ x. bind-ne-no_rows (unpack_data unpack_push more) _ (unpack-ne-no_rows more) (λ xs e. cc))
      h

module _ (numeral : String → Option ℕ) (faults : Faults) (t : Tables) (valid : IsValid t) where
  pub setup_shown :
      (service : String)
      → Shows
          (setup_reply (get_setup_errors_info_by_service numeral faults t service))
          (count_in numeral t service setup)
  unfolding get_setup_errors_info_by_service unpack_data
  setup_shown service = elim (Bool-cases faults.query) [
    | inl bad ↦ rw bad tt
    | inr fine ↦ elim (Option-cases (id_of t.services (affine numeral service))) [
      | inl missing ↦
          let e =
            join_setup_absent t.services (affine numeral service) valid.services t.setup_errors
              missing in
          rw (fine, e, missing) refl
      | inr (i, there) ↦
          let e =
            join_setup_lem t.services (affine numeral service) valid.services t.setup_errors i
              valid.setup there in
          elim (Option-cases (count_of t.setup_errors i)) [
            | inl no_row ↦ rw (fine, e, there, no_row) refl
            | inr (c, row) ↦ rw (fine, e, there, row) (one_shown (affine numeral service) c)
          ]
    ]
  ]

  -- The rows that the join found, where the service is registered.
  nodes_shown :
      (service : String) (i : ℕ) (found : List (List Value))
      → id_of t.services (affine numeral service) ≡ some i
      → join_push (same (affine numeral service)) t.services t.nodes t.push_errors ≡ found
      → ShowsNodes
          (push_reply (some_rows found >>= unpack_data unpack_push))
          (λ node. row_count (count_at t.push_errors i (id_of t.nodes (text node))))
  unfolding unpack_data lookup
  nodes_shown service i [] there e = λ node. ap row_count (
      sym (
        join_push_lem t.services t.nodes (affine numeral service) i valid.services valid.nodes there
          t.push_errors [] node valid.push (rw e refl)))
  nodes_shown service i (row ∷ more) there e = unpacked _ refl
    where
      unpacked :
          (r : Result (List (String × String × ℕ)))
          → unpack_data unpack_push (row ∷ more) ≡ r
          → ShowsNodes
              (push_reply r)
              (λ node. row_count (count_at t.push_errors i (id_of t.nodes (text node))))
      unpacked (ok found) p = (
        join_push-NodupKeys t.services t.nodes (affine numeral service) i valid.services valid.nodes
            there t.push_errors found valid.push (rw e p),
        λ node. ap row_count (
            sym (
              join_push_lem t.services t.nodes (affine numeral service) i valid.services valid.nodes
                there t.push_errors found node valid.push (rw e p))),
      )
      unpacked no_rows p = absurd (unpack-ne-no_rows (row ∷ more) p)
      unpacked wrong_structure p = tt
      unpacked wrong_type p = tt
      unpacked driver_error p = tt

  pub push_shown :
      (service : String)
      → ShowsNodes
          (push_reply (get_push_errors_info_by_service numeral faults t service))
          (λ node. count_in numeral t service (at_node node))
  unfolding get_push_errors_info_by_service
  push_shown service = elim (Bool-cases faults.query) [
    | inl bad ↦ rw bad tt
    | inr fine ↦ elim (Option-cases (id_of t.services (affine numeral service))) [
      | inl missing ↦
          let e =
            join_push_absent t.services t.nodes (affine numeral service) valid.services
              t.push_errors missing in
          rw (fine, e) (λ node. rw missing)
      | inr (i, there) ↦ rw (fine, there) (nodes_shown service i _ there refl)
    ]
  ]
