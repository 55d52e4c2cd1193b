-- ===== src/Database/Queries.antt =====
-- internal/db/notificationsDb.go: the queries of the tables of services, nodes and errors.
use managed_tokens.Base.{ℕ, String, Bool, true, Option, none, some, List, [], ◌∷◌}
use managed_tokens.Base.{if◌then◌else◌, nat_comparable}
use managed_tokens.Base.Dict.{Dict, lookup}
use managed_tokens.Database.{Value, integer, Tables, Faults, same, affine}
use managed_tokens.Database.Rows.{
  Result, ok, no_rows, wrong_structure, driver_error, ◌>>=◌, unpack_data, unpack_name_and_number,
  unpack_push, unpack_name,
}

-- getValuesTransactionRunner, on the rows that the statement selects.
abbrev pub get_values_transaction_runner : Faults → List (List Value) → Result (List (List Value))
get_values_transaction_runner faults found = if faults.query then driver_error else ok found

-- The tests of `len(data)`: no rows are `sql.ErrNoRows`.
abbrev pub some_rows : List (List Value) → Result (List (List Value))
some_rows [] = no_rows
some_rows (r ∷ rows) = ok (r ∷ rows)

abbrev pub one_row : List (List Value) → Result (List (List Value))
one_row [] = no_rows
one_row (r ∷ []) = ok (r ∷ [])
one_row (_ ∷ _ ∷ _) = wrong_structure

abbrev pub id_lookup : Dict ℕ Value → Option ℕ → Option Value
id_lookup names none = none
id_lookup names (some i) = lookup names i

-- The row of a join, where the service passes the test `keep` of the WHERE clause.
abbrev pub setup_row : (Value → Bool) → Option Value → ℕ → List (List Value) → List (List Value)
setup_row keep none c rest = rest
setup_row keep (some v) c rest = if keep v then (v ∷ integer c ∷ []) ∷ rest else rest

abbrev pub push_row :
    (Value → Bool) → Option Value → Option Value → ℕ → List (List Value) → List (List Value)
push_row keep none w c rest = rest
push_row keep (some v) none c rest = rest
push_row keep (some v) (some w) c rest = if keep v then (v ∷ w ∷ integer c ∷ []) ∷ rest else rest

-- setup_errors INNER JOIN services, by the id of the service
unfoldable pub join_setup : (Value → Bool) → Dict ℕ Value → List (Option ℕ × ℕ) → List (List Value)
join_setup keep services [] = []
join_setup keep services ((id, c) ∷ rest) =
    setup_row keep (id_lookup services id) c (join_setup keep services rest)

-- push_errors INNER JOIN services INNER JOIN nodes
unfoldable pub join_push :
    (Value → Bool)
    → Dict ℕ Value
    → Dict ℕ Value
    → List (Option ℕ × Option ℕ × ℕ)
    → List (List Value)
join_push keep services nodes [] = []
join_push keep services nodes ((id, node_id, c) ∷ rest) =
    push_row keep (id_lookup services id) (id_lookup nodes node_id) c
      (join_push keep services nodes rest)

-- GetSetupErrorsInfo
unfoldable pub get_setup_errors_info : Faults → Tables → Result (List (String × ℕ))
get_setup_errors_info faults t = do
  found ← get_values_transaction_runner faults (join_setup (λ _. true) t.services t.setup_errors)
  found ← some_rows found
  unpack_data unpack_name_and_number found

-- GetPushErrorsInfo
unfoldable pub get_push_errors_info : Faults → Tables → Result (List (String × String × ℕ))
get_push_errors_info faults t = do
  found ←
      get_values_transaction_runner faults (join_push (λ _. true) t.services t.nodes t.push_errors)
  found ← some_rows found
  unpack_data unpack_push found

-- `unpackedData[0]`
abbrev pub first_unpacked : List (String × ℕ) → Result (String × ℕ)
first_unpacked [] = wrong_structure
first_unpacked (x ∷ _) = ok x

module _ (numeral : String → Option ℕ) where
  -- GetSetupErrorsInfoByService
  unfoldable pub get_setup_errors_info_by_service : Faults → Tables → String → Result (String × ℕ)
  get_setup_errors_info_by_service faults t service = do
    found ←
        get_values_transaction_runner faults
          (join_setup (same (affine numeral service)) t.services t.setup_errors)
    found ← one_row found
    unpacked ← unpack_data unpack_name_and_number found
    first_unpacked unpacked

  -- GetPushErrorsInfoByService
  unfoldable pub get_push_errors_info_by_service :
      Faults → Tables → String → Result (List (String × String × ℕ))
  get_push_errors_info_by_service faults t service = do
    found ←
        get_values_transaction_runner faults
          (join_push (same (affine numeral service)) t.services t.nodes t.push_errors)
    found ← some_rows found
    unpack_data unpack_push found

-- SELECT name FROM services, or nodes
abbrev pub select_names : Dict ℕ Value → List (List Value)
select_names [] = []
select_names ((_, v) ∷ rest) = (v ∷ []) ∷ select_names rest

-- getNamedDimensionStringValues; an empty table is no error.
unfoldable pub get_named_dimension_string_values : Faults → List (List Value) → Result (List String)
get_named_dimension_string_values faults selected = do
  found ← get_values_transaction_runner faults selected
  unpack_data unpack_name found

-- GetAllServices
unfoldable pub get_all_services : Faults → Tables → Result (List String)
get_all_services faults t = get_named_dimension_string_values faults (select_names t.services)

-- GetAllNodes
unfoldable pub get_all_nodes : Faults → Tables → Result (List String)
get_all_nodes faults t = get_named_dimension_string_values faults (select_names t.nodes)
