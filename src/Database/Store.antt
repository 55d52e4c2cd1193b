-- ===== src/Database/Store.antt =====
-- internal/db behind the interface that the notifications use: the tables, valid, with the faults
-- that the coming calls meet.
use managed_tokens.Base.{ℕ, ◌≡◌, String, false}
use managed_tokens.Base.{Option, none, some, List, [], ◌∷◌}
use managed_tokens.Base.{nat_comparable, string_comparable}
use managed_tokens.Notifications.ErrorCounts.Runs.{Target, setup, at_node}
use managed_tokens.Notifications.ErrorCounts.Store.{
  Reply, rows, CountStore, IsLawful, upserted, upserted_push, row_count,
}
use managed_tokens.Notifications.ErrorCounts.Store as Counts
use managed_tokens.Database.{
  text, Tables, Faults, id_of, affine, update_setup_errors_table, update_push_errors_table,
}
use managed_tokens.Database.Rows.{Result, ok, no_rows}
use managed_tokens.Database.Queries.{
  get_setup_errors_info_by_service, get_push_errors_info_by_service,
}
use managed_tokens.Database.Counts.{count_of}
use managed_tokens.Database.Joins.{by_node, count_at}
use managed_tokens.Database.Validity.{IsValid, update_setup-IsValid, update_push-IsValid}

-- No call of the driver fails.
abbrev pub no_faults : Faults
no_faults = record {
  query = false;
  begin = false;
  prepare = false;
  exec = λ _. false;
  commit = false;
}

-- The tables and the faults of the coming calls: the first entry is met by each query until the
-- next update, and by that update.
abbrev pub Session : Type 0
Session = (t : Tables) × IsValid t × List Faults

abbrev pub faults_now : List Faults → Faults
faults_now [] = no_faults
faults_now (f ∷ _) = f

abbrev pub faults_later : List Faults → List Faults
faults_later [] = []
faults_later (_ ∷ rest) = rest

abbrev pub setup_reply : Result (String × ℕ) → Reply ℕ
setup_reply (ok (_, c)) = rows c
setup_reply no_rows = Counts.no_rows
setup_reply _ = Counts.failed

abbrev pub push_reply : Result (List (String × String × ℕ)) → Reply (List (String × ℕ))
push_reply (ok found) = rows (by_node found)
push_reply no_rows = Counts.no_rows
push_reply _ = Counts.failed

-- The count of the service that has an id, and of its node that has an id.
abbrev pub count_with : Tables → Target → Option ℕ → Option ℕ
count_with t target none = none
count_with t setup (some i) = count_of t.setup_errors i
count_with t (at_node node) (some i) = count_at t.push_errors i (id_of t.nodes (text node))

module _ (numeral : String → Option ℕ) where
  abbrev pub database : CountStore
  database = record {
    State = Session;
    get_setup_errors_info_by_service = λ s service.
        setup_reply (get_setup_errors_info_by_service numeral (faults_now s.2) s.0 service);
    get_push_errors_info_by_service = λ s service.
        push_reply (get_push_errors_info_by_service numeral (faults_now s.2) s.0 service);
    update_setup_errors_table = λ s new. (
      (
        (update_setup_errors_table numeral (faults_now s.2) new s.0).0,
        update_setup-IsValid numeral (faults_now s.2) new s.0 s.1,
        faults_later s.2,
      ),
      (update_setup_errors_table numeral (faults_now s.2) new s.0).1,
    );
    update_push_errors_table = λ s new. (
      (
        (update_push_errors_table numeral (faults_now s.2) new s.0).0,
        update_push-IsValid numeral (faults_now s.2) new s.0 s.1,
        faults_later s.2,
      ),
      (update_push_errors_table numeral (faults_now s.2) new s.0).1,
    );
  }

  -- The stored count of a target, 0 where there is none.
  abbrev pub count_in : Tables → String → Target → ℕ
  count_in t service target =
      row_count (count_with t target (id_of t.services (affine numeral service)))

  -- The names of the target are registered, and are stored as they are.
  abbrev pub IsRegistered : Tables → String → Target → Type 0
  IsRegistered t service setup =
      (i : ℕ) × (id_of t.services (affine numeral service) ≡ some i) × (numeral service ≡ none)
  IsRegistered t service (at_node node) =
      (i : ℕ) × (j : ℕ) × (id_of t.services (affine numeral service) ≡ some i)
      × (id_of t.nodes (text node) ≡ some j)
      × (numeral service ≡ none)
      × (numeral node ≡ none)
