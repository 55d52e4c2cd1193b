-- ===== src/Database/Counts.antt =====
-- The rows of the counts: a service, and a node of a service, has at most one, and keeps at most
-- one. What the joins select for a service.
use managed_tokens.Base.{ℕ, ◌≡◌, refl}
use managed_tokens.Base.{Option, none, some, List, [], ◌∷◌, arith}
use managed_tokens.Base.{if◌then◌else◌, nat_comparable, string_comparable}
use managed_tokens.Database.{same_id, same_ids, upsert_setup, upsert_push}

-- The count in the first row of a service.
unfoldable pub count_of : List (Option ℕ × ℕ) → ℕ → Option ℕ
count_of [] i = none
count_of ((id, c) ∷ rest) i = if same_id (some i) id then some c else count_of rest i

-- The count in the first row of a node of a service.
unfoldable pub push_of : List (Option ℕ × Option ℕ × ℕ) → ℕ → ℕ → Option ℕ
push_of [] i j = none
push_of ((id, node_id, c) ∷ rest) i j =
    if same_ids (some i) (some j) id node_id then some c else push_of rest i j

abbrev pub NodupSetup : List (Option ℕ × ℕ) → Type 0
NodupSetup [] = Unit
NodupSetup ((none, _) ∷ rest) = NodupSetup rest
NodupSetup ((some i, _) ∷ rest) = (count_of rest i ≡ none) × NodupSetup rest

abbrev pub NodupPush : List (Option ℕ × Option ℕ × ℕ) → Type 0
NodupPush [] = Unit
NodupPush ((none, _, _) ∷ rest) = NodupPush rest
NodupPush ((some _, none, _) ∷ rest) = NodupPush rest
NodupPush ((some i, some j, _) ∷ rest) = (push_of rest i j ≡ none) × NodupPush rest

pub count_of-upsert :
    (rows : List (Option ℕ × ℕ)) (id : Option ℕ) (c i : ℕ)
    → count_of (upsert_setup id c rows) i
      ≡ (if same_id (some i) id then some c else count_of rows i)
unfolding upsert_setup count_of
count_of-upsert [] id c i = refl
count_of-upsert ((none, w) ∷ rest) none c i = ground (arith, count_of-upsert rest none c i)
count_of-upsert ((some j, w) ∷ rest) none c i = ground (arith, count_of-upsert rest none c i)
count_of-upsert ((none, w) ∷ rest) (some k) c i = ground (arith, count_of-upsert rest (some k) c i)
count_of-upsert ((some j, w) ∷ rest) (some k) c i =
    ground (arith, count_of-upsert rest (some k) c i)

pub upsert-NodupSetup :
    (rows : List (Option ℕ × ℕ)) (id : Option ℕ) (c : ℕ)
    → NodupSetup rows
    → NodupSetup (upsert_setup id c rows)
unfolding upsert_setup count_of
upsert-NodupSetup [] none c u = tt
upsert-NodupSetup [] (some i) c u = (refl, tt)
upsert-NodupSetup ((none, w) ∷ rest) none c u = upsert-NodupSetup rest none c u
upsert-NodupSetup ((some j, w) ∷ rest) none c (fresh, u) =
    ground (arith, count_of-upsert rest none c j, upsert-NodupSetup rest none c u)
upsert-NodupSetup ((none, w) ∷ rest) (some k) c u = upsert-NodupSetup rest (some k) c u
upsert-NodupSetup ((some j, w) ∷ rest) (some k) c (fresh, u) =
    ground (arith, count_of-upsert rest (some k) c j, upsert-NodupSetup rest (some k) c u)

pub push_of-upsert :
    (rows : List (Option ℕ × Option ℕ × ℕ)) (id node_id : Option ℕ) (c i j : ℕ)
    → push_of (upsert_push id node_id c rows) i j
      ≡ (if same_ids (some i) (some j) id node_id then some c else push_of rows i j)
unfolding upsert_push push_of
push_of-upsert [] id node_id c i j = refl
push_of-upsert ((none, l, w) ∷ rest) none node_id c i j =
    ground (arith, push_of-upsert rest none node_id c i j)
push_of-upsert ((none, l, w) ∷ rest) (some a) node_id c i j =
    ground (arith, push_of-upsert rest (some a) node_id c i j)
push_of-upsert ((some k, l, w) ∷ rest) none node_id c i j =
    ground (arith, push_of-upsert rest none node_id c i j)
push_of-upsert ((some k, none, w) ∷ rest) (some a) none c i j =
    ground (arith, push_of-upsert rest (some a) none c i j)
push_of-upsert ((some k, none, w) ∷ rest) (some a) (some b) c i j =
    ground (arith, push_of-upsert rest (some a) (some b) c i j)
push_of-upsert ((some k, some l, w) ∷ rest) (some a) none c i j =
    ground (arith, push_of-upsert rest (some a) none c i j)
push_of-upsert ((some k, some l, w) ∷ rest) (some a) (some b) c i j =
    ground (arith, push_of-upsert rest (some a) (some b) c i j)

pub upsert-NodupPush :
    (rows : List (Option ℕ × Option ℕ × ℕ)) (id node_id : Option ℕ) (c : ℕ)
    → NodupPush rows
    → NodupPush (upsert_push id node_id c rows)
unfolding upsert_push push_of
upsert-NodupPush [] none node_id c u = tt
upsert-NodupPush [] (some i) none c u = tt
upsert-NodupPush [] (some i) (some j) c u = (refl, tt)
upsert-NodupPush ((none, l, w) ∷ rest) none node_id c u = upsert-NodupPush rest none node_id c u
upsert-NodupPush ((none, l, w) ∷ rest) (some a) node_id c u =
    upsert-NodupPush rest (some a) node_id c u
upsert-NodupPush ((some k, none, w) ∷ rest) none node_id c u =
    upsert-NodupPush rest none node_id c u
upsert-NodupPush ((some k, some l, w) ∷ rest) none node_id c (fresh, u) =
    ground (arith, push_of-upsert rest none node_id c k l, upsert-NodupPush rest none node_id c u)
upsert-NodupPush ((some k, none, w) ∷ rest) (some a) none c u =
    ground (arith, upsert-NodupPush rest (some a) none c u)
upsert-NodupPush ((some k, none, w) ∷ rest) (some a) (some b) c u =
    ground (arith, upsert-NodupPush rest (some a) (some b) c u)
upsert-NodupPush ((some k, some l, w) ∷ rest) (some a) none c (fresh, u) =
    ground (arith, push_of-upsert rest (some a) none c k l, upsert-NodupPush rest (some a) none c u)
upsert-NodupPush ((some k, some l, w) ∷ rest) (some a) (some b) c (fresh, u) = ground (
  arith,
  push_of-upsert rest (some a) (some b) c k l,
  upsert-NodupPush rest (some a) (some b) c u,
)
