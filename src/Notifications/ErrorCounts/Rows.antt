-- ===== src/Notifications/ErrorCounts/Rows.antt =====
-- The rows that are loaded and stored, and the counts they leave, without the database.
use managed_tokens.Base.{ℕ, zero, suc, ◌≡◌, refl, ◌∙◌, String, true, false}
use managed_tokens.Base.{arith, Option, none, some, List, [], ◌∷◌, string_comparable}
use managed_tokens.Base.{sym}
use managed_tokens.Base.Dict.{Dict, lookup, insert, lookup-insert, NodupKeys, insert-NodupKeys}
use managed_tokens.Notifications.{Notification}
use managed_tokens.Notifications.ErrorCounts.{ErrorCount, ServiceErrorCounts}
use managed_tokens.Notifications.ErrorCounts.Runs.{
  Target, setup, at_node, stored, value_of, count, adjust_all,
}
use managed_tokens.Notifications.ErrorCounts.Changes.{
  entry, is_changed, entry-adjust_all_other, is_changed-adjust_all,
}
use managed_tokens.Notifications.ErrorCounts.Store.{
  upserted_push, fresh, add_rows, rows_to_store, should_store_value, combine,
}

abbrev or_entry : Option ℕ → Option ErrorCount → Option ErrorCount
or_entry (some c) old = some (fresh c)
or_entry none old = old

pub lookup-add_rows :
    (found : List (String × ℕ)) (m : Dict String ErrorCount) (node : String)
    → NodupKeys found
    → lookup (add_rows m found) node ≡ or_entry (lookup found node) (lookup m node)
unfolding add_rows lookup
lookup-add_rows [] m node u = refl
lookup-add_rows ((j, c) ∷ found) m node (new, u) =
    ground
      (arith, lookup-add_rows found (insert m j (fresh c)) node u, lookup-insert m j node (fresh c))

pub add_rows-NodupKeys :
    (found : List (String × ℕ)) (m : Dict String ErrorCount)
    → NodupKeys m
    → NodupKeys (add_rows m found)
unfolding add_rows
add_rows-NodupKeys [] m u = u
add_rows-NodupKeys ((j, c) ∷ found) m u =
    add_rows-NodupKeys found (insert m j (fresh c)) (insert-NodupKeys m j (fresh c) u)

abbrev pub or_value : Option ℕ → ℕ → ℕ
or_value none old = old
or_value (some v) old = v

abbrev pub stored_as : Option ErrorCount → ℕ → ℕ
stored_as none old = old
stored_as (some c) old = or_value (should_store_value c) old

upserted_push_absent :
    (service node : String) (m : Dict String ErrorCount) (old : ℕ)
    → lookup m node ≡ none
    → upserted_push service node (rows_to_store service m) old ≡ old
unfolding rows_to_store lookup
upserted_push_absent service node [] old h = refl
upserted_push_absent service node ((j, c) ∷ m) old h =
    ground (arith, upserted_push_absent service node m old)

-- What the upsert of the rows for the nodes leaves at one node.
pub upserted_push-rows_to_store :
    (service node : String) (m : Dict String ErrorCount) (old : ℕ)
    → NodupKeys m
    → upserted_push service node (rows_to_store service m) old ≡ stored_as (lookup m node) old
unfolding rows_to_store lookup
upserted_push-rows_to_store service node [] old u = refl
upserted_push-rows_to_store service node ((j, c) ∷ m) old (new, u) = ground (
  arith,
  upserted_push-rows_to_store service node m old u,
  upserted_push_absent service node m old,
  upserted_push_absent service node m c.value,
  upserted_push_absent service node m 0,
)

-- The count that a run leaves for a target: without an error of its own it starts anew.
abbrev pub next_value : ℕ → ServiceErrorCounts → List Notification → Target → ℕ
next_value minimum ec ns t = elim (count t ns) [
  | zero ↦ 0
  | suc _ ↦ value_of t (adjust_all minimum ec ns).0
]

stored-entry : (t : Target) (ec : ServiceErrorCounts) → value_of t ec ≡ stored (entry t ec)
stored-entry setup ec = refl
stored-entry (at_node node) ec = refl

stored_as_unchanged : (o : Option ErrorCount) → is_changed o ≡ false → stored_as o (stored o) ≡ 0
stored_as_unchanged o h = ground arith

stored_as_changed :
    (o : Option ErrorCount) (old : ℕ) → is_changed o ≡ true → stored_as o old ≡ stored o
stored_as_changed o old h = ground arith

pub stored_as-next :
    (ec : ServiceErrorCounts) (ns : List Notification) (minimum : ℕ) (t : Target)
    → is_changed (entry t ec) ≡ false
    → stored_as (entry t (adjust_all minimum ec ns).0) (value_of t ec) ≡ next_value minimum ec ns t
stored_as-next ec ns minimum t h = go (count t ns) refl
  where
    last : ServiceErrorCounts
    last = (adjust_all minimum ec ns).0

    go :
        (k : ℕ)
        → count t ns ≡ k
        → stored_as (entry t last) (value_of t ec) ≡ (elim k [ zero ↦ 0 | suc _ ↦ value_of t last ])
    go zero e =
        rw (entry-adjust_all_other t ns ec minimum e, stored-entry t ec)
          (stored_as_unchanged (entry t ec) h)
    go (suc k) e =
        stored_as_changed (entry t last) _ (is_changed-adjust_all t ns ec minimum (omega arith))
        ∙ sym (stored-entry t last)

pub combine_inv :
    (p : Option ErrorCount) (q : Option (Dict String ErrorCount)) (ec : ServiceErrorCounts)
    → combine p q ≡ some ec
    → (p ≡ some ec.setup_errors) × (q ≡ some ec.push_errors)
combine_inv p q ec h = ground arith
