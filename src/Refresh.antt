-- ===== src/Refresh.antt =====
-- cmd/refresh-uids-from-ferry: getting the UIDs of the accounts from FERRY, storing them in the
-- database and verifying that they are stored; and the answer of FERRY (internal/worker).
pub mod Uids
pub mod Verified
use managed_tokens.Base.{
  ℕ, String, Bool, true, false, Option, none, some, List, [], ◌∷◌, ◌++◌, ◌<>◌,
}
use managed_tokens.Base.{◌==◌, if◌then◌else◌, contains, Comparable, string_comparable}
use managed_tokens.Base.{nat_comparable, ap, ◌≡◌}
use managed_tokens.Database.{Tables, Faults}
use managed_tokens.Database.Rows.{Result, ok, no_rows, wrong_structure, wrong_type, driver_error}
use managed_tokens.Database.Uids.{insert_uids_into_table_from_ferry, confirm_uids_in_table}

-- Two values of a struct are equal if their fields are.
instance unfoldable pub datum_comparable : Comparable (String × ℕ)
datum_comparable = record {
  dec = λ p q. elim (string_comparable.dec p.0 q.0) [
    | no differ ↦ no (λ h. differ (ap (λ x. x.0) h))
    | yes e ↦ elim (nat_comparable.dec p.1 q.1) [
      | no differ ↦ no (λ h. differ (ap (λ x. x.1) h))
      | yes f ↦ yes (λ i. (e i, f i))
    ]
  ];
}

-- utils.IsSliceSubSlice
abbrev pub is_slice_sub_slice {ℓ} : {A : Type ℓ} ⦃c : Comparable A⦄ → List A → List A → Bool
is_slice_sub_slice [] two = true
is_slice_sub_slice (x ∷ one) two =
    let later = is_slice_sub_slice one two in if contains two x then later else false

-- checkFerryDataInDB
unfoldable pub check_ferry_data_in_db : List (String × ℕ) → List (String × ℕ) → Bool
check_ferry_data_in_db ferry_data db_data = is_slice_sub_slice ferry_data db_data

-- The answer to a request: the request failed, or its body could not be read, or is no JSON, or
-- has a status and the UID, which is 0 where the answer has none.
pub data Answer : Type 0 where
  request_failed unreadable not_json : Answer
  parsed : String → ℕ → Answer

-- GetFERRYUIDData
abbrev pub get_ferry_uid_data : String → Answer → Option (String × ℕ)
get_ferry_uid_data username request_failed = none
get_ferry_uid_data username unreadable = none
get_ferry_uid_data username not_json = none
get_ferry_uid_data username (parsed status uid) =
    if status == "failure" then none else some (username, uid)

-- What getAndAggregateFERRYData sends on its two channels for one account.
abbrev pub get_and_aggregate_ferry_data : Bool → String × Answer → List (String × ℕ) × List String
get_and_aggregate_ferry_data notify (username, answer) = elim (get_ferry_uid_data username answer) [
  | some entry ↦ (entry ∷ [], [])
  | none ↦
      if notify
      then ([], ("Could not get FERRY UID data" <> " for user " <> username) ∷ [])
      else ([], [])
]

-- The goroutines for all accounts, in the order in which they send.
unfoldable pub collect : Bool → List (String × Answer) → List (String × ℕ) × List String
collect notify [] = ([], [])
collect notify (a ∷ more) =
    let (found, messages) = get_and_aggregate_ferry_data notify a in
    let (rest, later) = collect notify more in (found ++ rest, messages ++ later)

-- The methods that `authmethod` names, and whether newFERRYServiceConfigWithKerberosAuth succeeds.
pub data AuthMethod : Type 0 where
  tls : AuthMethod
  jwt : Bool → AuthMethod
  unsupported : AuthMethod

pub record Settings : Type 0 where
  pub disable_notifications : Bool
  pub test : Bool
  pub auth_method : AuthMethod

pub data Ending : Type 0 where
  finished : Ending
  returned_error : Ending
  exited : Ending

-- The end of run: the tables, what was sent to the administrators, and how it ended.
pub record Outcome : Type 0 where
  pub tables : Tables
  pub messages : List String
  pub ending : Ending

abbrev pub told : Settings → List String → List String
told s messages = if s.disable_notifications then [] else messages

-- run after the collection of data. The faults are those of the insertion and of the query.
module _ (numeral : String → Option ℕ) (s : Settings) where
  abbrev pub stop : Tables → List String → String → Outcome
  stop t sent message = record {
    tables = t;
    messages = sent ++ told s (message ∷ []);
    ending = returned_error;
  }

  abbrev pub verify :
      List (String × ℕ) → List String → Tables → Result (List (String × ℕ)) → Outcome
  verify ferry_data sent t (ok db_data) =
      if check_ferry_data_in_db ferry_data db_data
      then record { tables = t; messages = sent; ending = finished }
      else stop t sent "verification of INSERT failed.  Please check the logs"
  verify ferry_data sent t _ = stop t sent "Error running verification of INSERT"

  unfoldable pub insert_and_verify :
      Faults → Faults → List (String × ℕ) → List String → Tables → Outcome
  insert_and_verify insert_faults query_faults ferry_data sent t =
      let (t', inserted) = insert_uids_into_table_from_ferry numeral insert_faults ferry_data t in
      if inserted
      then verify ferry_data sent t' (confirm_uids_in_table query_faults t')
      else stop t' sent "Could not insert FERRY data into database"

  abbrev pub use_data : Faults → Faults → List (String × ℕ) → List String → Tables → Outcome
  use_data insert_faults query_faults [] sent t = stop t sent "no data collected from FERRY"
  use_data insert_faults query_faults (d ∷ more) sent t =
      if s.test
      then record { tables = t; messages = sent; ending = finished }
      else insert_and_verify insert_faults query_faults (d ∷ more) sent t

  abbrev pub authenticated : Faults → Faults → List (String × Answer) → Tables → Outcome
  authenticated insert_faults query_faults answers t =
      let (ferry_data, sent) = collect (if s.disable_notifications then false else true) answers in
      use_data insert_faults query_faults ferry_data sent t

  -- The choice of the authentication, and what follows it.
  abbrev pub run_with : AuthMethod → Faults → Faults → List (String × Answer) → Tables → Outcome
  run_with tls insert_faults query_faults answers t =
      authenticated insert_faults query_faults answers t
  run_with (jwt true) insert_faults query_faults answers t =
      authenticated insert_faults query_faults answers t
  run_with (jwt false) insert_faults query_faults answers t = record {
    tables = t;
    messages =
        told s
          ("Could not create service config to authenticate to FERRY with a JWT. Exiting" ∷ []);
    ending = exited;
  }
  run_with unsupported insert_faults query_faults answers t = record {
    tables = t;
    messages = [];
    ending = returned_error;
  }

  -- run, from the choice of the authentication on, on the opened database
  unfoldable pub run : Faults → Faults → List (String × Answer) → Tables → Outcome
  run = run_with s.auth_method
