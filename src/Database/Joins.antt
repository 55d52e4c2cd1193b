-- ===== src/Database/Joins.antt =====
-- What the joins select for a service, in tables that hold each name and each count once.
use managed_tokens.Base.{ℕ, ◌≡◌, refl, sym, ◌∙◌, ap, String, true, false}
use managed_tokens.Base.{Option, none, some, List, [], ◌∷◌, arith, inl, inr, Bool-cases}
use managed_tokens.Base.{◌==◌, if◌then◌else◌, nat_comparable, string_comparable, Option-cases}
use mathlib.Core.Path.{subst}
use managed_tokens.Base.Dict.{Dict, lookup, NodupKeys}
use managed_tokens.Database.{Value, text, integer, same, id_of, same_ids}
use managed_tokens.Database.Rows.{
  Result, ok, no_rows, wrong_structure, wrong_type, driver_error, unpack_data, unpack_push, ◌>>=◌,
}
use managed_tokens.Database.Queries.{join_setup, join_push, id_lookup}
use managed_tokens.Database.Ids.{IsNameTable, same_eq, same_self, lookup-id_of, id_of-lookup}
use managed_tokens.Database.Counts.{count_of, push_of, NodupSetup, NodupPush}

abbrev pub joined : Value → Option ℕ → List (List Value)
joined v none = []
joined v (some c) = (v ∷ integer c ∷ []) ∷ []

module _ (services : Dict ℕ Value) (v : Value) (named : IsNameTable services) where
  pub join_setup_absent :
      (rows : List (Option ℕ × ℕ))
      → id_of services v ≡ none
      → join_setup (same v) services rows ≡ []
  unfolding join_setup
  join_setup_absent [] h = refl
  join_setup_absent ((none, c) ∷ rest) h = join_setup_absent rest h
  join_setup_absent ((some j, c) ∷ rest) h = elim (Option-cases (lookup services j)) [
    | inl missing ↦ rw missing (join_setup_absent rest h)
    | inr (w, there) ↦
        ground (arith, same_eq v w, id_of-lookup services v j named.names, join_setup_absent rest h)
  ]

  pub join_setup_lem :
      (rows : List (Option ℕ × ℕ)) (i : ℕ)
      → NodupSetup rows
      → id_of services v ≡ some i
      → join_setup (same v) services rows ≡ joined v (count_of rows i)
  unfolding join_setup count_of
  join_setup_lem [] i u h = refl
  join_setup_lem ((none, c) ∷ rest) i u h = join_setup_lem rest i u h
  join_setup_lem ((some j, c) ∷ rest) i (fresh, u) h =
      let there = lookup-id_of services v i named.ids h in
      elim (Option-cases (lookup services j)) [
        | inl missing ↦ ground (arith, join_setup_lem rest i u h)
        | inr (w, found) ↦ ground (
          arith,
          same_eq v w,
          same_self v,
          id_of-lookup services v j named.names,
          join_setup_lem rest i u h,
        )
      ]

-- The nodes and counts of unpacked rows.
abbrev pub by_node : List (String × String × ℕ) → Dict String ℕ
by_node [] = []
by_node ((_, node, c) ∷ rest) = (node, c) ∷ by_node rest

-- The count in a table for the node that has an id.
abbrev pub count_at : List (Option ℕ × Option ℕ × ℕ) → ℕ → Option ℕ → Option ℕ
count_at rows i none = none
count_at rows i (some j) = push_of rows i j

module _ (services nodes : Dict ℕ Value) (v : Value) (named : IsNameTable services) where
  pub join_push_absent :
      (rows : List (Option ℕ × Option ℕ × ℕ))
      → id_of services v ≡ none
      → join_push (same v) services nodes rows ≡ []
  unfolding join_push
  join_push_absent [] h = refl
  join_push_absent ((none, k, c) ∷ rest) h = join_push_absent rest h
  join_push_absent ((some j, k, c) ∷ rest) h = elim (Option-cases (lookup services j)) [
    | inl missing ↦ rw missing (join_push_absent rest h)
    | inr (w, there) ↦ elim (Option-cases (id_lookup nodes k)) [
      | inl missing ↦ rw (there, missing) (join_push_absent rest h)
      | inr (x, found) ↦
          ground
            (arith, same_eq v w, id_of-lookup services v j named.names, join_push_absent rest h)
    ]
  ]

pub NodupPush-tail :
    (id node_id : Option ℕ) (c : ℕ) (rest : List (Option ℕ × Option ℕ × ℕ))
    → NodupPush ((id, node_id, c) ∷ rest)
    → NodupPush rest
NodupPush-tail none node_id c rest u = u
NodupPush-tail (some i) none c rest u = u
NodupPush-tail (some i) (some j) c rest (_, u) = u

unpack_nil :
    (found : List (String × String × ℕ)) → unpack_data unpack_push [] ≡ ok found → found ≡ []
unfolding unpack_data
unpack_nil found h = cc

-- Unpacking the row of a join, and then the others.
pub unpack_push_row :
    (w x : Value) (c : ℕ) (rest : List (List Value)) (found : List (String × String × ℕ))
    → unpack_data unpack_push ((w ∷ x ∷ integer c ∷ []) ∷ rest) ≡ ok found
    → (service : String) × (node : String) × (more : List (String × String × ℕ)) × (x ≡ text node)
      × (unpack_data unpack_push rest ≡ ok more)
      × (found ≡ (service, node, c) ∷ more)
unfolding unpack_data
unpack_push_row (text s) (text n) c rest found h = unpack_rest (unpack_data unpack_push rest) refl h
  where
    unpack_rest :
        (r : Result (List (String × String × ℕ)))
        → unpack_data unpack_push rest ≡ r
        → (r >>= λ xs. ok ((s, n, c) ∷ xs)) ≡ ok found
        → (service : String) × (node : String) × (more : List (String × String × ℕ)) × (text n
            ≡ text node)
          × (unpack_data unpack_push rest ≡ ok more)
          × (found ≡ (service, node, c) ∷ more)
    unpack_rest (ok more) e h = (s, n, more, refl, e, cc)
    unpack_rest no_rows e h = cc
    unpack_rest wrong_structure e h = cc
    unpack_rest wrong_type e h = cc
    unpack_rest driver_error e h = cc
unpack_push_row (text s) (integer n) c rest found h = cc
unpack_push_row (integer s) (text n) c rest found h = cc
unpack_push_row (integer s) (integer n) c rest found h = cc

module _ (services nodes : Dict ℕ Value) (v : Value) (i : ℕ) (named : IsNameTable services)
    (nodes_named : IsNameTable nodes) (at_i : id_of services v ≡ some i) where
  -- The row is not of the node of the service.
  skip_row :
      (id node_id : Option ℕ) (c : ℕ) (rest : List (Option ℕ × Option ℕ × ℕ)) (o : Option ℕ)
      → ((j : ℕ) → o ≡ some j → same_ids (some i) (some j) id node_id ≡ false)
      → count_at ((id, node_id, c) ∷ rest) i o ≡ count_at rest i o
  unfolding push_of
  skip_row id node_id c rest none h = refl
  skip_row id node_id c rest (some j) h = ground (arith, h j refl)

  other_service :
      (id node_id : Option ℕ) (w : Value)
      → id_lookup services id ≡ some w
      → same v w ≡ false
      → (j : ℕ) → same_ids (some i) (some j) id node_id ≡ false
  other_service none node_id w there differ j = refl
  other_service (some k) node_id w there differ j =
      ground (arith, lookup-id_of services v i named.ids at_i, same_self v)

  no_service :
      (id node_id : Option ℕ)
      → id_lookup services id ≡ none
      → (j : ℕ) → same_ids (some i) (some j) id node_id ≡ false
  no_service none node_id missing j = refl
  no_service (some k) node_id missing j = ground (arith, lookup-id_of services v i named.ids at_i)

  no_node :
      (id node_id : Option ℕ) (node : String) (j : ℕ)
      → id_lookup nodes node_id ≡ none
      → id_of nodes (text node) ≡ some j
      → same_ids (some i) (some j) id node_id ≡ false
  no_node none node_id node j missing h = refl
  no_node (some k) none node j missing h = ground arith
  no_node (some k) (some l) node j missing h =
      ground (arith, lookup-id_of nodes (text node) j nodes_named.ids h)

  -- The row is of a node of the service.
  take_row :
      (id node_id : Option ℕ) (c : ℕ) (rest : List (Option ℕ × Option ℕ × ℕ)) (w : Value)
      (node : String) (m : String)
      → id_lookup services id ≡ some w
      → same v w ≡ true
      → id_lookup nodes node_id ≡ some (text node)
      → count_at ((id, node_id, c) ∷ rest) i (id_of nodes (text m))
        ≡ (if m == node then some c else count_at rest i (id_of nodes (text m)))
  unfolding push_of
  take_row none node_id c rest w node m there match found = cc
  take_row (some k) none c rest w node m there match found = cc
  take_row (some k) (some l) c rest w node m there match found = ground (
    arith,
    same_eq v w match,
    id_of-lookup services v k named.names,
    id_of-lookup nodes (text node) l nodes_named.names found,
    lookup-id_of nodes (text m) l nodes_named.ids,
  )

  count_at_nil : (o : Option ℕ) → count_at [] i o ≡ none
  unfolding push_of
  count_at_nil none = refl
  count_at_nil (some j) = refl

  -- The counts that are unpacked are, by node, those of the table.
  pub join_push_lem :
      (rows : List (Option ℕ × Option ℕ × ℕ)) (found : List (String × String × ℕ)) (node : String)
      → NodupPush rows
      → unpack_data unpack_push (join_push (same v) services nodes rows) ≡ ok found
      → lookup (by_node found) node ≡ count_at rows i (id_of nodes (text node))
  unfolding join_push lookup
  join_push_lem [] found node u h =
      ap (λ rows. lookup (by_node rows) node) (unpack_nil found h)
      ∙ sym (count_at_nil (id_of nodes (text node)))
  join_push_lem ((id, k, c) ∷ rest) found node u h = elim (Option-cases (id_lookup services id)) [
    | inl missing ↦
        join_push_lem rest found node (NodupPush-tail id k c rest u) (rw missing at h)
        ∙ sym (skip_row id k c rest _ (λ j _. no_service id k missing j))
    | inr (w, there) ↦ elim (Option-cases (id_lookup nodes k)) [
      | inl missing ↦
          join_push_lem rest found node (NodupPush-tail id k c rest u) (rw (there, missing) at h)
          ∙ sym (skip_row id k c rest _ (λ j e. no_node id k node j missing e))
      | inr (x, at_x) ↦ elim (Bool-cases (same v w)) [
        | inr differ ↦
            join_push_lem rest found node (NodupPush-tail id k c rest u)
              (rw (there, at_x, differ) at h)
            ∙ sym (skip_row id k c rest _ (λ j _. other_service id k w there differ j))
        | inl match ↦
            let (service, name, more, is_text, unpacked, e) =
              unpack_push_row w x c (join_push (same v) services nodes rest) found
                (rw (there, at_x, match) at h) in
            ap (λ rows. lookup (by_node rows) node) e
            ∙ ap (λ o. if node == name then some c else o)
                (join_push_lem rest more node (NodupPush-tail id k c rest u) unpacked)
            ∙ sym (take_row id k c rest w name node there match (at_x ∙ ap some is_text))
      ]
    ]
  ]

  row_fresh :
      (id node_id : Option ℕ) (c : ℕ) (rest : List (Option ℕ × Option ℕ × ℕ)) (w : Value)
      (name : String)
      → NodupPush ((id, node_id, c) ∷ rest)
      → id_lookup services id ≡ some w
      → same v w ≡ true
      → id_lookup nodes node_id ≡ some (text name)
      → count_at rest i (id_of nodes (text name)) ≡ none
  row_fresh none node_id c rest w name u there match found = cc
  row_fresh (some k) none c rest w name u there match found = cc
  row_fresh (some k) (some l) c rest w name (fresh, _) there match found = ground (
    arith,
    same_eq v w match,
    id_of-lookup services v k named.names,
    id_of-lookup nodes (text name) l nodes_named.names found,
  )

  -- No node is unpacked twice.
  pub join_push-NodupKeys :
      (rows : List (Option ℕ × Option ℕ × ℕ)) (found : List (String × String × ℕ))
      → NodupPush rows
      → unpack_data unpack_push (join_push (same v) services nodes rows) ≡ ok found
      → NodupKeys (by_node found)
  unfolding join_push
  join_push-NodupKeys [] found u h =
      subst (λ rows. NodupKeys (by_node rows)) (sym (unpack_nil found h)) tt
  join_push-NodupKeys ((id, k, c) ∷ rest) found u h =
      let later = NodupPush-tail id k c rest u in
      elim (Option-cases (id_lookup services id)) [
        | inl missing ↦ join_push-NodupKeys rest found later (rw missing at h)
        | inr (w, there) ↦ elim (Option-cases (id_lookup nodes k)) [
          | inl missing ↦ join_push-NodupKeys rest found later (rw (there, missing) at h)
          | inr (x, at_x) ↦ elim (Bool-cases (same v w)) [
            | inr differ ↦ join_push-NodupKeys rest found later (rw (there, at_x, differ) at h)
            | inl match ↦
                let (service, name, more, is_text, unpacked, e) =
                  unpack_push_row w x c (join_push (same v) services nodes rest) found
                    (rw (there, at_x, match) at h) in
                subst (λ rows. NodupKeys (by_node rows)) (sym e)
                  (
                    join_push_lem rest more name later unpacked
                        ∙ row_fresh id k c rest w name u there match (at_x ∙ ap some is_text),
                    join_push-NodupKeys rest more later unpacked,
                  )
          ]
        ]
      ]
