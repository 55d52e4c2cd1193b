-- ===== src/Notifications/ErrorCounts/Store.antt =====
-- internal/notifications/db.go: loading the counts of a service from the database and saving them.
-- The database is an interface of four queries on an unknown state; a query may fail.
use managed_tokens.Base.{ℕ, zero, suc, String, Bool, true, false, Option, none, some, List, [], ◌∷◌}
use managed_tokens.Base.{◌≡◌, ◌==◌, if◌then◌else◌, string_comparable}
use managed_tokens.Base.Dict.{Dict, lookup, insert, NodupKeys}
use managed_tokens.Notifications.ErrorCounts.{ErrorCount, ServiceErrorCounts}
use managed_tokens.Notifications.ErrorCounts.Runs.{Target, setup, at_node}

-- What a query returns: rows, `sql.ErrNoRows`, or another error.
pub data Reply (A : Type 0) : Type 0 where
  rows : A → Reply A
  no_rows : Reply A
  failed : Reply A

-- The methods of `ManagedTokensDatabase` that are used here. An update returns whether it
-- succeeded.
pub record CountStore : Type 1 where
  pub State : Type 0
  pub get_setup_errors_info_by_service : State → String → Reply ℕ
  pub get_push_errors_info_by_service : State → String → Reply (List (String × ℕ))
  pub update_setup_errors_table : State → List (String × ℕ) → State × Bool
  pub update_push_errors_table : State → List (String × String × ℕ) → State × Bool

-- Upserts in order: the last row of the key counts.
abbrev pub upserted : String → List (String × ℕ) → ℕ → ℕ
upserted service [] old = old
upserted service ((s, c) ∷ more) old = upserted service more (if service == s then c else old)

abbrev pub upserted_push : String → String → List (String × String × ℕ) → ℕ → ℕ
upserted_push service node [] old = old
upserted_push service node ((s, n, c) ∷ more) old =
    upserted_push service node more (if service == s then (if node == n then c else old) else old)

abbrev pub row_count : Option ℕ → ℕ
row_count none = 0
row_count (some c) = c

-- What the program relies on: `view` is the stored count, 0 where there is no row. A query that
-- succeeds shows it. An update that succeeds upserts its rows for the targets that the store
-- knows, touches nothing else, and forgets no target.
pub record IsLawful (D : CountStore) (view : D.State → String → Target → ℕ)
    (Known : D.State → String → Target → Type 0) : Type 0 where
  pub setup_rows :
      (s : D.State) (service : String) (c : ℕ)
      → D.get_setup_errors_info_by_service s service ≡ rows c
      → view s service setup ≡ c
  pub setup_no_rows :
      (s : D.State) (service : String)
      → D.get_setup_errors_info_by_service s service ≡ no_rows
      → view s service setup ≡ 0
  pub push_rows :
      (s : D.State) (service : String) (found : List (String × ℕ))
      → D.get_push_errors_info_by_service s service ≡ rows found
      → NodupKeys found
        × ((node : String) → view s service (at_node node) ≡ row_count (lookup found node))
  pub push_no_rows :
      (s : D.State) (service node : String)
      → D.get_push_errors_info_by_service s service ≡ no_rows
      → view s service (at_node node) ≡ 0
  pub setup_updated :
      (s s' : D.State) (data_rows : List (String × ℕ)) (service : String)
      → D.update_setup_errors_table s data_rows ≡ (s', true)
      → (Known s service setup
          → view s' service setup ≡ upserted service data_rows (view s service setup))
        × ((node : String)
            → (view s' service (at_node node) ≡ view s service (at_node node))
              × (Known s service (at_node node) → Known s' service (at_node node)))
  pub push_updated :
      (s s' : D.State) (data_rows : List (String × String × ℕ)) (service : String)
      → D.update_push_errors_table s data_rows ≡ (s', true)
      → (view s' service setup ≡ view s service setup)
        × ((node : String)
            → Known s service (at_node node)
            → view s' service (at_node node)
              ≡ upserted_push service node data_rows (view s service (at_node node)))

abbrev pub fresh : ℕ → ErrorCount
fresh c = record { value = c; changed = false }

-- populateServiceSetupErrorCountFromDatabase
abbrev pub populate_setup : Reply ℕ → Option ErrorCount
populate_setup (rows c) = some (fresh c)
populate_setup no_rows = some (fresh 0)
populate_setup failed = none

-- The loop over the rows of populateServicePushErrorCountFromDatabase.
unfoldable pub add_rows : Dict String ErrorCount → List (String × ℕ) → Dict String ErrorCount
add_rows m [] = m
add_rows m ((node, c) ∷ more) = add_rows (insert m node (fresh c)) more

-- populateServicePushErrorCountFromDatabase
abbrev pub populate_push : Reply (List (String × ℕ)) → Option (Dict String ErrorCount)
populate_push (rows found) = some (add_rows [] found)
populate_push no_rows = some []
populate_push failed = none

abbrev pub combine : Option ErrorCount → Option (Dict String ErrorCount) → Option ServiceErrorCounts
combine none q = none
combine (some e) none = none
combine (some e) (some m) = some (record { setup_errors = e; push_errors = m })

-- The closure `shouldStoreValue`: the count to store, if any.
abbrev pub should_store_value : ErrorCount → Option ℕ
should_store_value e =
    if e.changed then some e.value else elim e.value [ zero ↦ none | suc v ↦ some 0 ]

-- The rows for the nodes whose count is to be stored.
unfoldable pub rows_to_store : String → Dict String ErrorCount → List (String × String × ℕ)
rows_to_store service [] = []
rows_to_store service ((node, c) ∷ more) =
    let rest = rows_to_store service more in
    elim (should_store_value c) [ none ↦ rest | some v ↦ (service, node, v) ∷ rest ]

module _ (D : CountStore) where
  -- setErrorCountsByService; `none` is its error. The two queries run side by side and write to
  -- different fields. No state stands for a nil database.
  unfoldable pub set_error_counts_by_service : String → Option D.State → Option ServiceErrorCounts
  set_error_counts_by_service service none = none
  set_error_counts_by_service service (some s) =
      combine (populate_setup (D.get_setup_errors_info_by_service s service))
        (populate_push (D.get_push_errors_info_by_service s service))

  unfoldable pub store_setup : String → Option ℕ → D.State → D.State × Bool
  store_setup service none s = (s, true)
  store_setup service (some v) s = D.update_setup_errors_table s ((service, v) ∷ [])

  unfoldable pub store_push : List (String × String × ℕ) → D.State → D.State × Bool
  store_push [] s = (s, true)
  store_push (r ∷ more) s = D.update_push_errors_table s (r ∷ more)

  -- saveErrorCountsInDatabase: an error in the first update keeps the second from being made.
  unfoldable pub save_error_counts_in_database :
      String → D.State → ServiceErrorCounts → D.State × Bool
  save_error_counts_in_database service s ec =
      let (s', saved) = store_setup service (should_store_value ec.setup_errors) s in
      if saved then store_push (rows_to_store service ec.push_errors) s' else (s', false)
