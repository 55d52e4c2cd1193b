-- ===== src/Refresh/Verified.antt =====
-- A run that ends well has stored what FERRY answered, and when a run ends well.
use managed_tokens.Base.{ℕ, suc, ◌≡◌, ◌≢◌, refl, sym, ap, String, Bool, true, false, arith}
use managed_tokens.Base.{
  Option, none, some, List, [], ◌∷◌, ◌++◌, ◌∙◌, ◌==◌, if◌then◌else◌, contains,
}
use managed_tokens.Base.{nat_comparable, string_comparable, Bool-cases, Option-cases, inl, inr}
use managed_tokens.Base.Dict.{Dict}
use managed_tokens.Base.Lists.{All}
use mathlib.Core.Path.{subst}
use mathlib.Core.List.{append_assoc}
use mathlib.Core.Option.{some-injective}
use managed_tokens.Database.{
  Value, text, integer, Tables, Faults, exec_all, insert_values_transaction_runner,
}
use managed_tokens.Database.Rows.{
  Result, ok, no_rows, wrong_structure, wrong_type, driver_error, ◌>>=◌, unpack_data,
  unpack_name_and_number,
}
use managed_tokens.Database.Uids.{
  uid_of, put_uid, insert_into_uid_table, select_uids, confirm_uids_in_table,
  insert_uids_into_table_from_ferry,
}
use managed_tokens.Database.Transactions.{runner_committed}
use managed_tokens.Database.Validity.{IsValid, NodupUsers, insert_uids-IsValid}
use managed_tokens.Refresh.{
  datum_comparable, is_slice_sub_slice, check_ferry_data_in_db, Answer, parsed,
  get_and_aggregate_ferry_data, collect, Settings, AuthMethod, tls, jwt, unsupported, Outcome,
  finished, returned_error, insert_and_verify, verify, use_data, run_with, run,
}
use managed_tokens.Refresh.Uids.{
  IsConsistent, HasTexts, IsPlain, IsStored, inserted, all_stored, stored-contains, contains-stored,
}

-- What was collected from the answers.
abbrev pub collected : Settings → List (String × Answer) → List (String × ℕ)
collected s answers = (collect (if s.disable_notifications then false else true) answers).0

module _ (numeral : String → Option ℕ) (s : Settings) where
  all_contained :
      (m : Dict Value ℕ) (found rows : List (String × ℕ))
      → NodupUsers m
      → unpack_data unpack_name_and_number (select_uids m) ≡ ok found
      → is_slice_sub_slice rows found ≡ true
      → All (λ d. uid_of m (text d.0) ≡ some d.1) rows
  all_contained m found [] distinct h c = tt
  all_contained m found ((u, n) ∷ rows) distinct h c = elim (Bool-cases (contains found (u, n))) [
    | inl there ↦ (
      contains-stored m found u n distinct h there,
      all_contained m found rows distinct h (rw there at c),
    )
    | inr missing ↦ absurd (let e : false ≡ true = rw missing at c in cc)
  ]

  -- An outcome without an error has the data in its tables.
  abbrev Verified : List (String × ℕ) → Outcome → Type 0
  Verified rows o = o.ending ≡ finished → All (IsStored numeral o.tables) rows

  not_test :
      (insert_faults query_faults : Faults) (d : String × ℕ) (rows : List (String × ℕ))
      (sent : List String) (t : Tables)
      → s.test ≡ false
      → use_data numeral s insert_faults query_faults (d ∷ rows) sent t
        ≡ insert_and_verify numeral s insert_faults query_faults (d ∷ rows) sent t
  not_test insert_faults query_faults d rows sent t no_test =
      ap
        (λ b.
          if b
          then record { tables = t; messages = sent; ending = finished }
          else insert_and_verify numeral s insert_faults query_faults (d ∷ rows) sent t)
        no_test

  confirmed :
      (faults : Faults) (t : Tables) (found : List (String × ℕ))
      → confirm_uids_in_table faults t ≡ ok found
      → unpack_data unpack_name_and_number (select_uids t.uids) ≡ ok found
  unfolding confirm_uids_in_table
  confirmed faults t found h = elim (Bool-cases faults.query) [
    | inl bad ↦ absurd (let e : driver_error ≡ ok found = rw bad at h in cc)
    | inr fine ↦ rw fine at h
  ]

  verified :
      (faults : Faults) (t : Tables) (rows : List (String × ℕ)) (sent : List String)
      (r : Result (List (String × ℕ)))
      → NodupUsers t.uids
      → confirm_uids_in_table faults t ≡ r
      → (verify numeral s rows sent t r).ending ≡ finished
      → All (IsStored numeral (verify numeral s rows sent t r).tables) rows
  unfolding check_ferry_data_in_db
  verified faults t rows sent (ok found) distinct h e =
      elim (Bool-cases (is_slice_sub_slice rows found)) [
        | inl good ↦
            rw good (all_contained t.uids found rows distinct (confirmed faults t found h) good)
        | inr bad ↦ absurd (let c : returned_error ≡ finished = rw bad at e in cc)
      ]
  verified faults t rows sent no_rows distinct h e = cc
  verified faults t rows sent wrong_structure distinct h e = cc
  verified faults t rows sent wrong_type distinct h e = cc
  verified faults t rows sent driver_error distinct h e = cc

  verified_insertion :
      (insert_faults query_faults : Faults) (rows : List (String × ℕ)) (sent : List String)
      (t : Tables)
      → IsValid t
      → (insert_and_verify numeral s insert_faults query_faults rows sent t).ending ≡ finished
      → All
          (IsStored numeral
            (insert_and_verify numeral s insert_faults query_faults rows sent t).tables)
          rows
  unfolding insert_and_verify
  verified_insertion insert_faults query_faults rows sent t valid e =
      let kept = insert_uids-IsValid numeral insert_faults rows t valid in
      elim (Bool-cases (insert_uids_into_table_from_ferry numeral insert_faults rows t).1) [
        | inl good ↦ rw good (verified query_faults _ rows sent _ kept.users refl (rw good at e))
        | inr bad ↦ absurd (let c : returned_error ≡ finished = rw bad at e in cc)
      ]

  use_data-Verified :
      (insert_faults query_faults : Faults) (rows : List (String × ℕ)) (sent : List String)
      (t : Tables)
      → IsValid t
      → s.test ≡ false
      → Verified rows (use_data numeral s insert_faults query_faults rows sent t)
  use_data-Verified insert_faults query_faults [] sent t valid no_test = λ _. tt
  use_data-Verified insert_faults query_faults (d ∷ rows) sent t valid no_test =
      subst (Verified (d ∷ rows)) (sym (not_test insert_faults query_faults d rows sent t no_test))
        (verified_insertion insert_faults query_faults (d ∷ rows) sent t valid)

  run_with-Verified :
      (method : AuthMethod) (insert_faults query_faults : Faults) (answers : List (String × Answer))
      (t : Tables)
      → IsValid t
      → s.test ≡ false
      → Verified
          (collected s answers)
          (run_with numeral s method insert_faults query_faults answers t)
  run_with-Verified tls insert_faults query_faults answers t valid no_test =
      use_data-Verified insert_faults query_faults _ _ t valid no_test
  run_with-Verified (jwt true) insert_faults query_faults answers t valid no_test =
      use_data-Verified insert_faults query_faults _ _ t valid no_test
  run_with-Verified (jwt false) insert_faults query_faults answers t valid no_test = λ e. cc
  run_with-Verified unsupported insert_faults query_faults answers t valid no_test = λ e. cc

  All_at :
      (P : String × ℕ → Type 0) (xs ys : List (String × ℕ)) (d : String × ℕ)
      → All P (xs ++ (d ∷ ys))
      → P d
  All_at P [] ys d h = h.0
  All_at P (x ∷ xs) ys d h = All_at P xs ys d h.1

  answered :
      (notify : Bool) (username status : String) (uid : ℕ)
      → (status == "failure") ≡ false
      → (get_and_aggregate_ferry_data notify (username, parsed status uid)).0 ≡ (username, uid) ∷ []
  answered notify username status uid h = ground arith

  -- The answer of FERRY for an account is among what was collected.
  collected_at :
      (notify : Bool) (before after : List (String × Answer)) (username status : String) (uid : ℕ)
      → (status == "failure") ≡ false
      → (xs : List (String × ℕ)) × (ys : List (String × ℕ)) × ((collect notify
            (before ++ ((username, parsed status uid) ∷ after))).0
          ≡ xs ++ ((username, uid) ∷ ys))
  unfolding collect
  collected_at notify [] after username status uid h = (
    [],
    (collect notify after).0,
    ap (λ found. found ++ (collect notify after).0) (answered notify username status uid h),
  )
  collected_at notify (a ∷ before) after username status uid h =
      let (xs, ys, e) = collected_at notify before after username status uid h in
      let found = (get_and_aggregate_ferry_data notify a).0 in
      (found ++ xs, ys, ap (λ rest. found ++ rest) e ∙ rw append_assoc)

  -- A run outside of test mode that ends without an error, on valid tables, has in its tables each
  -- account that FERRY answered for, in whatever order, without the status of a failure, with the UID
  -- of that answer.
  pub run_verified :
      (insert_faults query_faults : Faults) (before after : List (String × Answer))
      (username status : String) (uid : ℕ) (t : Tables)
      → IsValid t
      → s.test ≡ false
      → (status == "failure") ≡ false
      → let answers = before ++ ((username, parsed status uid) ∷ after) in
        (run numeral s insert_faults query_faults answers t).ending ≡ finished
        → IsStored numeral
            (run numeral s insert_faults query_faults answers t).tables
            (username, uid)
  unfolding run
  run_verified insert_faults query_faults before after username status uid t valid no_test good h =
      let answers = before ++ ((username, parsed status uid) ∷ after) in
      let (xs, ys, e) =
        collected_at (if s.disable_notifications then false else true) before after username status
          uid good in
      let stored =
        run_with-Verified s.auth_method insert_faults query_faults answers t valid no_test h in
      let after_run =
        (run_with numeral s s.auth_method insert_faults query_faults answers t).tables in
      All_at (IsStored numeral after_run) xs ys (username, uid)
        (subst (All (IsStored numeral after_run)) e stored)

-- The tables after an insertion have their users as texts.
put_uid-HasTexts :
    (m : Dict Value ℕ) (u : String) (n : ℕ) → HasTexts m → HasTexts (put_uid m (text u) n)
unfolding put_uid
put_uid-HasTexts [] u n h = tt
put_uid-HasTexts ((integer _, k) ∷ m) u n h = elim h [ ]
put_uid-HasTexts ((text v, k) ∷ m) u n h = ground (arith, put_uid-HasTexts m u n h)

inserted-HasTexts :
    (numeral : String → Option ℕ) (fails : ℕ → Bool) (k : ℕ) (rows : List (String × ℕ))
    (t t' : Tables)
    → All (IsPlain numeral) rows
    → exec_all (insert_into_uid_table numeral) fails k rows t ≡ some t'
    → HasTexts t.uids
    → HasTexts t'.uids
unfolding exec_all
inserted-HasTexts numeral fails k [] t t' plain h texts =
    subst (λ x. HasTexts x.uids) (some-injective _ _ h) texts
inserted-HasTexts numeral fails k ((u, n) ∷ rows) t t' (p, plain) h texts =
    elim (Bool-cases (fails k)) [
      | inl bad ↦ absurd (let e : none ≡ some t' = rw bad at h in cc)
      | inr fine ↦ elim (Option-cases (insert_into_uid_table numeral (u, n) t)) [
        | inl bad ↦ absurd (let e : none ≡ some t' = rw (fine, bad) at h in cc)
        | inr (t1, done) ↦
            inserted-HasTexts numeral fails (suc k) rows t1 t' plain (rw (fine, done) at h) (
              subst HasTexts (sym (inserted numeral u n t t1 p done))
                (put_uid-HasTexts t.uids u n texts))
      ]
    ]

unpacks :
    (m : Dict Value ℕ)
    → HasTexts m
    → (found : List (String × ℕ)) × (unpack_data unpack_name_and_number (select_uids m) ≡ ok found)
unfolding unpack_data
unpacks [] h = ([], refl)
unpacks ((integer _, n) ∷ m) h = elim h [ ]
unpacks ((text u, n) ∷ m) h =
    let (found, e) = unpacks m h in ((u, n) ∷ found, ap (λ r. r >>= λ xs. ok ((u, n) ∷ xs)) e)

all_found :
    (m : Dict Value ℕ) (found rows : List (String × ℕ))
    → unpack_data unpack_name_and_number (select_uids m) ≡ ok found
    → All (λ d. uid_of m (text d.0) ≡ some d.1) rows
    → is_slice_sub_slice rows found ≡ true
all_found m found [] h there = refl
all_found m found ((u, n) ∷ rows) h (first, there) =
    rw (stored-contains m found u n h first) (all_found m found rows h there)

-- The choices of the authentication that lead to requests.
abbrev pub CanAuthenticate : AuthMethod → Type 0
CanAuthenticate tls = Unit
CanAuthenticate (jwt true) = Unit
CanAuthenticate (jwt false) = ⊥
CanAuthenticate unsupported = ⊥

module _ (numeral : String → Option ℕ) (s : Settings) where
  verification_passes :
      (insert_faults query_faults : Faults) (rows : List (String × ℕ)) (sent : List String)
      (t : Tables)
      → (insert_uids_into_table_from_ferry numeral insert_faults rows t).1 ≡ true
      → query_faults.query ≡ false
      → All (IsPlain numeral) rows
      → IsConsistent rows
      → HasTexts t.uids
      → (insert_and_verify numeral s insert_faults query_faults rows sent t).ending ≡ finished
  unfolding insert_and_verify insert_uids_into_table_from_ferry check_ferry_data_in_db
      confirm_uids_in_table
  verification_passes insert_faults query_faults rows sent t good fine plain consistent texts =
      let done = runner_committed (insert_into_uid_table numeral) insert_faults rows t good in
      let t' =
        (insert_values_transaction_runner (insert_into_uid_table numeral) insert_faults rows t).0 in
      let (found, e) =
        unpacks t'.uids
          (inserted-HasTexts numeral insert_faults.exec 0 rows t t' plain done texts) in
      let stored = all_stored numeral insert_faults.exec 0 rows t t' plain consistent done in
      rw (good, fine, e, all_found t'.uids found rows e stored) refl

  either_finished :
      (b : Bool) (x y : Outcome)
      → x.ending ≡ finished
      → y.ending ≡ finished
      → (if b then x else y).ending ≡ finished
  either_finished true x y p q = p
  either_finished false x y p q = q

  passes_use :
      (insert_faults query_faults : Faults) (rows : List (String × ℕ)) (sent : List String)
      (t : Tables)
      → rows ≢ []
      → (insert_uids_into_table_from_ferry numeral insert_faults rows t).1 ≡ true
      → query_faults.query ≡ false
      → All (IsPlain numeral) rows
      → IsConsistent rows
      → HasTexts t.uids
      → (use_data numeral s insert_faults query_faults rows sent t).ending ≡ finished
  passes_use insert_faults query_faults [] sent t some_data good fine plain consistent texts =
      absurd (some_data refl)
  passes_use insert_faults query_faults (d ∷ rows) sent t _ good fine plain consistent texts =
      either_finished s.test _ _ refl (
        verification_passes insert_faults query_faults (d ∷ rows) sent t good fine plain consistent
          texts)

  passes_with :
      (method : AuthMethod) (insert_faults query_faults : Faults) (answers : List (String × Answer))
      (t : Tables)
      → CanAuthenticate method
      → collected s answers ≢ []
      → (insert_uids_into_table_from_ferry numeral insert_faults (collected s answers) t).1 ≡ true
      → query_faults.query ≡ false
      → All (IsPlain numeral) (collected s answers)
      → IsConsistent (collected s answers)
      → HasTexts t.uids
      → (run_with numeral s method insert_faults query_faults answers t).ending ≡ finished
  passes_with tls insert_faults query_faults answers t _ =
      passes_use insert_faults query_faults _ _ t
  passes_with (jwt true) insert_faults query_faults answers t _ =
      passes_use insert_faults query_faults _ _ t
  passes_with (jwt false) insert_faults query_faults answers t h = elim h [ ]
  passes_with unsupported insert_faults query_faults answers t h = elim h [ ]

  -- A run ends without an error where it can authenticate, FERRY answered for some account, the
  -- insertion and the query of the database succeed, no account has two different UIDs among the
  -- answers, and no name of a user, answered or stored before, is a numeral: the verification does
  -- not fail then.
  pub run_finishes :
      (insert_faults query_faults : Faults) (answers : List (String × Answer)) (t : Tables)
      → CanAuthenticate s.auth_method
      → collected s answers ≢ []
      → (insert_uids_into_table_from_ferry numeral insert_faults (collected s answers) t).1 ≡ true
      → query_faults.query ≡ false
      → All (IsPlain numeral) (collected s answers)
      → IsConsistent (collected s answers)
      → HasTexts t.uids
      → (run numeral s insert_faults query_faults answers t).ending ≡ finished
  unfolding run
  run_finishes = passes_with s.auth_method
