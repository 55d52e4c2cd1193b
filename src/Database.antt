-- ===== src/Database.antt =====
-- internal/db: the tables of the SQLite database, the statements that the code sends and the
-- transactions that it sends them in. SQLite itself is not in the repository: a statement does
-- here what its text says, by SQLite's documentation, and any call of the driver may fail.
pub mod Rows
pub mod Queries
pub mod Uids
pub mod Opening
pub mod Ids
pub mod Counts
pub mod Joins
pub mod Transactions
pub mod Validity
pub mod Store
pub mod Reading
pub mod Lawful
pub mod Remembering
use managed_tokens.Base.{ℕ, suc, ◌+◌, String, Bool, true, false, Option, none, some, List, [], ◌∷◌}
use managed_tokens.Base.{◌==◌, ltb, if◌then◌else◌, nat_comparable, string_comparable, Comparable}
use managed_tokens.Base.Dict.{Dict, insert}
use native.Mathlib.Decide.{ℕ_discrete}

-- A value of a column of names. The columns are declared STRING, which SQLite gives the affinity
-- NUMERIC: a text that reads as a number is stored as that number, here by a code.
pub data Value : Type 0 where
  text : String → Value
  integer : ℕ → Value

-- The tables of the schema. The keys of `services` and `nodes` are their ids; the ids in the
-- tables of errors may be NULL.
pub record Tables : Type 0 where
  pub services : Dict ℕ Value
  pub nodes : Dict ℕ Value
  pub setup_errors : List (Option ℕ × ℕ)
  pub push_errors : List (Option ℕ × Option ℕ × ℕ)
  pub uids : Dict Value ℕ

-- Which calls of the driver fail in one method: the query, and the steps of a transaction.
pub record Faults : Type 0 where
  pub query : Bool
  pub begin : Bool
  pub prepare : Bool
  pub exec : ℕ → Bool
  pub commit : Bool

abbrev pub same : Value → Value → Bool
same (text s) (text t) = s == t
same (integer m) (integer n) = m == n
same _ _ = false

-- SELECT id FROM table WHERE name = v
unfoldable pub id_of : Dict ℕ Value → Value → Option ℕ
id_of [] v = none
id_of ((i, w) ∷ rest) v = if same v w then some i else id_of rest v

-- One above the largest id, as SQLite gives an INTEGER PRIMARY KEY.
unfoldable pub next_id : Dict ℕ Value → ℕ
next_id [] = 1
next_id ((i, _) ∷ rest) = if ltb i (next_id rest) then next_id rest else suc i

-- NULL is not equal to NULL, so a row with NULL conflicts with no row.
abbrev pub same_id : Option ℕ → Option ℕ → Bool
same_id (some i) (some j) = i == j
same_id _ _ = false

module _ (numeral : String → Option ℕ) where
  -- What is stored for a text, and compared with what is stored.
  abbrev pub affine : String → Value
  affine s = elim (numeral s) [ none ↦ text s | some n ↦ integer n ]

  -- INSERT INTO services(name) VALUES (?) ON CONFLICT(name) DO NOTHING; for nodes as well
  unfoldable pub insert_name : String → Dict ℕ Value → Dict ℕ Value
  insert_name name rows = elim (id_of rows (affine name)) [
    | none ↦ insert rows (next_id rows) (affine name)
    | some _ ↦ rows
  ]

  -- insertIntoServicesTableStatement
  abbrev pub insert_into_services_table : String → Tables → Option Tables
  insert_into_services_table name t = some (record t { services = insert_name name t.services })

  -- insertIntoNodesTableStatement
  abbrev pub insert_into_nodes_table : String → Tables → Option Tables
  insert_into_nodes_table name t = some (record t { nodes = insert_name name t.nodes })

unfoldable pub upsert_setup : Option ℕ → ℕ → List (Option ℕ × ℕ) → List (Option ℕ × ℕ)
upsert_setup id c [] = (id, c) ∷ []
upsert_setup id c ((j, w) ∷ rest) =
    if same_id id j then (j, c) ∷ rest else (j, w) ∷ upsert_setup id c rest

abbrev pub same_ids : Option ℕ → Option ℕ → Option ℕ → Option ℕ → Bool
same_ids id node_id j k = if same_id id j then same_id node_id k else false

unfoldable pub upsert_push :
    Option ℕ → Option ℕ → ℕ → List (Option ℕ × Option ℕ × ℕ) → List (Option ℕ × Option ℕ × ℕ)
upsert_push id node_id c [] = (id, node_id, c) ∷ []
upsert_push id node_id c ((j, k, w) ∷ rest) =
    if same_ids id node_id j k then (j, k, c) ∷ rest else (j, k, w) ∷ upsert_push id node_id c rest

module _ (numeral : String → Option ℕ) where
  -- insertOrUpdateSetupErrorsStatement: the id of an unknown service is NULL.
  abbrev pub insert_or_update_setup_errors : String × ℕ → Tables → Option Tables
  insert_or_update_setup_errors (service, c) t = some (record t {
    setup_errors = upsert_setup (id_of t.services (affine numeral service)) c t.setup_errors;
  })

  -- insertOrUpdatePushErrorsStatement
  abbrev pub insert_or_update_push_errors : String × String × ℕ → Tables → Option Tables
  insert_or_update_push_errors (service, node, c) t = some (record t {
    push_errors =
        upsert_push (id_of t.services (affine numeral service))
          (id_of t.nodes (affine numeral node)) c t.push_errors;
  })

module _ {A : Type 0} (statement : A → Tables → Option Tables) where
  -- The loop of insertValuesTransactionRunner; `none` is the error of a call. `statement` is none
  -- where the statement violates a constraint.
  unfoldable pub exec_all : (ℕ → Bool) → ℕ → List A → Tables → Option Tables
  exec_all fails i [] t = some t
  exec_all fails i (row ∷ rows) t =
      if fails i
      then none
      else elim (statement row t) [ none ↦ none | some t' ↦ exec_all fails (suc i) rows t' ]

  -- insertValuesTransactionRunner: the committed tables, and whether it returned no error. What a
  -- transaction wrote that is not committed is not kept.
  unfoldable pub insert_values_transaction_runner : Faults → List A → Tables → Tables × Bool
  insert_values_transaction_runner faults rows t =
      if faults.begin
      then (t, false)
      else if faults.prepare
      then (t, false)
      else elim (exec_all faults.exec 0 rows t) [
        | none ↦ (t, false)
        | some t' ↦ if faults.commit then (t, false) else (t', true)
      ]

module _ (numeral : String → Option ℕ) where
  -- UpdateServices
  unfoldable pub update_services : Faults → List String → Tables → Tables × Bool
  update_services = insert_values_transaction_runner (insert_into_services_table numeral)

  -- UpdateNodes
  unfoldable pub update_nodes : Faults → List String → Tables → Tables × Bool
  update_nodes = insert_values_transaction_runner (insert_into_nodes_table numeral)

  -- UpdateSetupErrorsTable
  unfoldable pub update_setup_errors_table : Faults → List (String × ℕ) → Tables → Tables × Bool
  update_setup_errors_table =
      insert_values_transaction_runner (insert_or_update_setup_errors numeral)

  -- UpdatePushErrorsTable
  unfoldable pub update_push_errors_table :
      Faults → List (String × String × ℕ) → Tables → Tables × Bool
  update_push_errors_table = insert_values_transaction_runner (insert_or_update_push_errors numeral)
