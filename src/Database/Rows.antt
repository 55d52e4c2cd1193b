-- ===== src/Database/Rows.antt =====
-- internal/db: the rows that a query returns, and unpacking them with the checks of their types.
use managed_tokens.Base.{ℕ, String, List, [], ◌∷◌}
use managed_tokens.Database.{Value, text, integer}

-- What a method returns: a value, `sql.ErrNoRows`, errDatabaseDataWrongStructure,
-- errDatabaseDataWrongType or an error of the driver.
pub data Result (A : Type 0) : Type 0 where
  ok : A → Result A
  no_rows : Result A
  wrong_structure : Result A
  wrong_type : Result A
  driver_error : Result A

infixl 5 ◌>>=◌
abbrev pub ◌>>=◌ : {A B : Type 0} → Result A → (A → Result B) → Result B
ok a >>= f = f a
no_rows >>= f = no_rows
wrong_structure >>= f = wrong_structure
wrong_type >>= f = wrong_type
driver_error >>= f = driver_error

-- The loop of unpackData.
unfoldable pub unpack_data :
    {A : Type 0} → (List Value → Result A) → List (List Value) → Result (List A)
unpack_data unpack_row [] = ok []
unpack_data unpack_row (row ∷ rows) = do
  x ← unpack_row row
  xs ← unpack_data unpack_row rows
  ok (x ∷ xs)

-- setupErrorCount.unpackDataRow, and ferryUidDatum.unpackDataRow, which checks the same.
abbrev pub unpack_name_and_number : List Value → Result (String × ℕ)
unpack_name_and_number (text name ∷ integer n ∷ []) = ok (name, n)
unpack_name_and_number (_ ∷ _ ∷ []) = wrong_type
unpack_name_and_number _ = wrong_structure

-- pushErrorCount.unpackDataRow
abbrev pub unpack_push : List Value → Result (String × String × ℕ)
unpack_push (text service ∷ text node ∷ integer n ∷ []) = ok (service, node, n)
unpack_push (_ ∷ _ ∷ _ ∷ []) = wrong_type
unpack_push _ = wrong_structure

-- The loop of unpackNamedDimensionData.
abbrev pub unpack_name : List Value → Result String
unpack_name (text name ∷ []) = ok name
unpack_name (_ ∷ []) = wrong_type
unpack_name _ = wrong_structure
