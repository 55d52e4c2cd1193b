-- ===== src/Notifications/ErrorCounts/Runs.antt =====
-- The counts over a whole stream of notifications: what is sent, and what the counters hold.
use managed_tokens.Base.{is_none, not, ◌||◌, zero, refl}
use managed_tokens.Base.{ℕ, suc, ◌+◌, ◌*◌, ◌≤◌, ◌<◌, ◌≡◌, String, Bool, true, false, arith}
use managed_tokens.Base.{Option, none, some, List, [], ◌∷◌, if◌then◌else◌, ◌==◌, string_comparable}
use managed_tokens.Base.{Bool-cases, inl, inr}
use managed_tokens.Base.Dict.{lookup, lookup-insert}
use managed_tokens.Notifications.{Notification, setup_error, push_error}
use managed_tokens.Notifications.ErrorCounts.{ErrorCount, ServiceErrorCounts, adjust_error_counts}

-- One after the other, with the notifications that are to be sent.
unfoldable pub adjust_all :
    ℕ → ServiceErrorCounts → List Notification → ServiceErrorCounts × List Notification
adjust_all minimum ec [] = (ec, [])
adjust_all minimum ec (n ∷ ns) =
    let (ec', send) = adjust_error_counts n ec minimum in
    let (last, sent) = adjust_all minimum ec' ns in (last, if send then n ∷ sent else sent)

-- What a counter belongs to: the setup of the service, or one of its nodes.
pub data Target : Type 0 where
  setup : Target
  at_node : String → Target

abbrev pub concerns : Target → Notification → Bool
concerns setup (setup_error _ _) = true
concerns setup (push_error _ _ _) = false
concerns (at_node node) (setup_error _ _) = false
concerns (at_node node) (push_error _ _ n) = node == n

abbrev pub count : Target → List Notification → ℕ
count t [] = 0
count t (n ∷ ns) = let rest = count t ns in if concerns t n then suc rest else rest

abbrev pub stored : Option ErrorCount → ℕ
stored none = 0
stored (some c) = c.value

abbrev pub value_of : Target → ServiceErrorCounts → ℕ
value_of setup ec = ec.setup_errors.value
value_of (at_node node) ec = stored (lookup ec.push_errors node)

-- Every counter is below the minimum for sending.
abbrev pub IsBelow : ℕ → ServiceErrorCounts → Type 0
IsBelow minimum ec = (t : Target) → value_of t ec < minimum

abbrev send_as : Bool → ℕ
send_as true = 1
send_as false = 0

abbrev hit_as : Target → Notification → ℕ
hit_as t n = if concerns t n then 1 else 0

-- One notification: the counter of its target goes up by one, less the minimum if it is sent.
adjust-value_of :
    (t : Target) (n : Notification) (ec : ServiceErrorCounts) (minimum : ℕ)
    → 2 ≤ minimum
    → IsBelow minimum ec
    → (value_of t (adjust_error_counts n ec minimum).0
          + (if concerns t n then send_as (adjust_error_counts n ec minimum).1 * minimum else 0)
        ≡ value_of t ec + hit_as t n)
      × (value_of t (adjust_error_counts n ec minimum).0 < minimum)
unfolding adjust_error_counts
adjust-value_of setup (setup_error m s) ec minimum h b = ground (arith, b setup)
adjust-value_of setup (push_error m s node) ec minimum h b = ground (arith, b setup)
adjust-value_of (at_node k) (setup_error m s) ec minimum h b = ground (arith, b (at_node k))
adjust-value_of (at_node k) (push_error m s node) ec minimum h b =
    grind (arith, b (at_node k), b (at_node node), lookup-insert)

count_sent :
    (t : Target) (n : Notification) (ns : List Notification) (send : Bool) (minimum : ℕ)
    → count t (if send then n ∷ ns else ns) * minimum
      ≡ count t ns * minimum + (if concerns t n then send_as send * minimum else 0)
count_sent t n ns true minimum = elim (Bool-cases (concerns t n)) [
  | inl hit ↦ rw hit (omega arith)
  | inr miss ↦ rw miss (omega arith)
]
count_sent t n ns false minimum = elim (Bool-cases (concerns t n)) [
  | inl hit ↦ rw hit (omega arith)
  | inr miss ↦ rw miss (omega arith)
]

count_cons :
    (t : Target) (n : Notification) (ns : List Notification)
    → count t (n ∷ ns) ≡ hit_as t n + count t ns
count_cons t n ns = ground arith

-- Whatever else arrives in between, each target is notified once per `minimum` of its own errors,
-- and its counter holds the errors since the last one sent. For a minimum of at
-- least two, and counters below it.
pub adjust_all-value_of :
    (t : Target) (minimum : ℕ) (ns : List Notification) (ec : ServiceErrorCounts)
    → 2 ≤ minimum
    → IsBelow minimum ec
    → (value_of t (adjust_all minimum ec ns).0 + count t (adjust_all minimum ec ns).1 * minimum
        ≡ value_of t ec + count t ns)
      × (value_of t (adjust_all minimum ec ns).0 < minimum)
unfolding adjust_all
adjust_all-value_of t minimum [] ec h b = ground (arith, b t)
adjust_all-value_of t minimum (n ∷ ns) ec h b =
    let (ec', send) = adjust_error_counts n ec minimum in
    let rest =
      adjust_all-value_of t minimum ns ec' h (λ u. (adjust-value_of u n ec minimum h b).1) in
    let head = adjust-value_of t n ec minimum h b in
    (
      omega (
        arith,
        head.0,
        rest.0,
        count_cons t n ns,
        count_sent t n (adjust_all minimum ec' ns).1 send minimum,
      ),
      rest.1,
    )

abbrev pub one_if_any : ℕ → ℕ
one_if_any zero = 0
one_if_any (suc _) = 1

-- Whether the target has a counter yet.
abbrev pub is_known : Target → ServiceErrorCounts → Bool
is_known setup ec = true
is_known (at_node node) ec = not (is_none (lookup ec.push_errors node))

adjust-is_known :
    (t : Target) (n : Notification) (ec : ServiceErrorCounts) (minimum : ℕ)
    → is_known t (adjust_error_counts n ec minimum).0 ≡ (is_known t ec || concerns t n)
unfolding adjust_error_counts
adjust-is_known setup n ec minimum = refl
adjust-is_known (at_node node) (setup_error m s) ec minimum = ground arith
adjust-is_known (at_node node) (push_error m s k) ec minimum = grind (arith, lookup-insert)

sends_at_one :
    (t : Target) (n : Notification) (ec : ServiceErrorCounts) (minimum : ℕ)
    → minimum ≤ 1
    → concerns t n ≡ true
    → (adjust_error_counts n ec minimum).1 ≡ is_known t ec
unfolding adjust_error_counts
sends_at_one setup (setup_error m s) ec minimum h c = ground arith
sends_at_one setup (push_error m s k) ec minimum h c = ground arith
sends_at_one (at_node node) (setup_error m s) ec minimum h c = ground arith
sends_at_one (at_node node) (push_error m s k) ec minimum h c = ground arith

-- With a minimum of at most one every setup error is sent, and every push error but the first of a
-- node that has no count yet.
pub adjust_all_at_one :
    (t : Target) (minimum : ℕ) (ns : List Notification) (ec : ServiceErrorCounts)
    → minimum ≤ 1
    → count t ns
      ≡ count t (adjust_all minimum ec ns).1
        + (if is_known t ec then 0 else one_if_any (count t ns))
unfolding adjust_all
adjust_all_at_one t minimum [] ec h = ground arith
adjust_all_at_one t minimum (n ∷ ns) ec h =
    let (ec', send) = adjust_error_counts n ec minimum in
    ground (
      arith,
      adjust_all_at_one t minimum ns ec' h,
      adjust-is_known t n ec minimum,
      sends_at_one t n ec minimum h,
    )
