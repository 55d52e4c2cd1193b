-- ===== src/Database/Uids.antt =====
-- internal/db/ferryDb.go: the table of the UIDs of users.
use managed_tokens.Base.{ℕ, String, Bool, true, false, Option, none, some, List, [], ◌∷◌}
use managed_tokens.Base.{◌==◌, if◌then◌else◌, nat_comparable}
use managed_tokens.Base.Dict.{Dict}
use managed_tokens.Database.{
  Value, integer, Tables, Faults, same, affine, insert_values_transaction_runner,
}
use managed_tokens.Database.Rows.{
  Result, ok, no_rows, driver_error, ◌>>=◌, unpack_data, unpack_name_and_number,
}
use managed_tokens.Database.Queries.{get_values_transaction_runner}

-- SELECT uid FROM uids WHERE username = v
unfoldable pub uid_of : Dict Value ℕ → Value → Option ℕ
uid_of [] v = none
uid_of ((w, n) ∷ rest) v = if same v w then some n else uid_of rest v

-- Whether a row has the UID: the column is UNIQUE.
unfoldable pub uid_taken : Dict Value ℕ → ℕ → Bool
uid_taken [] uid = false
uid_taken ((_, n) ∷ rest) uid = if uid == n then true else uid_taken rest uid

-- Whether a row of another user has the UID.
unfoldable pub uid_taken_by_other : Dict Value ℕ → Value → ℕ → Bool
uid_taken_by_other [] v uid = false
uid_taken_by_other ((w, n) ∷ rest) v uid =
    let later = uid_taken_by_other rest v uid in
    if uid == n then (if same v w then later else true) else later

-- The row of the user gets the UID, or a new row does.
unfoldable pub put_uid : Dict Value ℕ → Value → ℕ → Dict Value ℕ
put_uid [] v uid = (v, uid) ∷ []
put_uid ((w, n) ∷ rest) v uid = if same v w then (w, uid) ∷ rest else (w, n) ∷ put_uid rest v uid

module _ (numeral : String → Option ℕ) where
  -- insertIntoUIDTableStatement. The conflict on the username is looked for first; a UID that
  -- another user has violates the constraint, whether the row is inserted or updated.
  unfoldable pub insert_into_uid_table : String × ℕ → Tables → Option Tables
  insert_into_uid_table (username, uid) t =
      if uid_taken_by_other t.uids (affine numeral username) uid
      then none
      else some (record t { uids = put_uid t.uids (affine numeral username) uid })

  -- InsertUidsIntoTableFromFERRY
  unfoldable pub insert_uids_into_table_from_ferry :
      Faults → List (String × ℕ) → Tables → Tables × Bool
  insert_uids_into_table_from_ferry = insert_values_transaction_runner insert_into_uid_table

  -- GetUIDByUsername: Scan of no row is `sql.ErrNoRows`. Its Prepare may fail, then its query.
  unfoldable pub get_uid_by_username : Faults → Tables → String → Result ℕ
  get_uid_by_username faults t username =
      if faults.prepare
      then driver_error
      else if faults.query
      then driver_error
      else elim (uid_of t.uids (affine numeral username)) [ none ↦ no_rows | some n ↦ ok n ]

-- SELECT username, uid FROM uids
abbrev pub select_uids : Dict Value ℕ → List (List Value)
select_uids [] = []
select_uids ((v, n) ∷ rest) = (v ∷ integer n ∷ []) ∷ select_uids rest

-- ConfirmUIDsInTable; an empty table is no error.
unfoldable pub confirm_uids_in_table : Faults → Tables → Result (List (String × ℕ))
confirm_uids_in_table faults t = do
  found ← get_values_transaction_runner faults (select_uids t.uids)
  unpack_data unpack_name_and_number found
