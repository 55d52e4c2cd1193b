-- ===== src/Tests/Memory.antt =====
-- A database in memory, which keeps every row it was given.
use managed_tokens.Base.{ℕ, ◌≡◌, refl, sym, ◌∙◌, ap, String, true, arith}
use mathlib.Core.Path.{subst}
use managed_tokens.Base.{List, [], ◌∷◌, ◌++◌, if◌then◌else◌, ◌==◌, string_comparable}
use managed_tokens.Base.Dict.{
  Dict, lookup, insert, lookup-insert, lookup-nil, NodupKeys, insert-NodupKeys,
}
use managed_tokens.Notifications.ErrorCounts.Runs.{Target, setup, at_node}
use managed_tokens.Notifications.ErrorCounts.Store.{
  CountStore, IsLawful, Reply, rows, no_rows, failed, upserted, upserted_push, row_count,
}

abbrev pub Memory : Type 0
Memory = List (String × ℕ) × List (String × String × ℕ)

unfoldable pub collect : String → Dict String ℕ → List (String × String × ℕ) → Dict String ℕ
collect service m [] = m
collect service m ((s, n, c) ∷ more) =
    collect service (if service == s then insert m n c else m) more

abbrev pub in_memory : CountStore
in_memory = record {
  State = Memory;
  get_setup_errors_info_by_service = λ s service. rows (upserted service s.0 0);
  get_push_errors_info_by_service = λ s service. rows (collect service [] s.1);
  update_setup_errors_table = λ s new. ((s.0 ++ new, s.1), true);
  update_push_errors_table = λ s new. ((s.0, s.1 ++ new), true);
}

abbrev pub stored_count : Memory → String → Target → ℕ
stored_count s service setup = upserted service s.0 0
stored_count s service (at_node node) = upserted_push service node s.1 0

row_count-collect :
    (service node : String) (log : List (String × String × ℕ)) (m : Dict String ℕ)
    → row_count (lookup (collect service m log) node)
      ≡ upserted_push service node log (row_count (lookup m node))
unfolding collect
row_count-collect service node [] m = refl
row_count-collect service node ((s, n, c) ∷ more) m = ground (
  arith,
  row_count-collect service node more (insert m n c),
  row_count-collect service node more m,
  lookup-insert m n node c,
)

collect-NodupKeys :
    (service : String) (log : List (String × String × ℕ)) (m : Dict String ℕ)
    → NodupKeys m
    → NodupKeys (collect service m log)
unfolding collect
collect-NodupKeys service [] m u = u
collect-NodupKeys service ((s, n, c) ∷ more) m u = ground (
  arith,
  collect-NodupKeys service more (insert m n c) (insert-NodupKeys m n c u),
  collect-NodupKeys service more m u,
)

upserted-append :
    (service : String) (xs ys : List (String × ℕ)) (old : ℕ)
    → upserted service (xs ++ ys) old ≡ upserted service ys (upserted service xs old)
upserted-append service [] ys old = refl
upserted-append service ((s, c) ∷ xs) ys old =
    upserted-append service xs ys (if service == s then c else old)

upserted_push-append :
    (service node : String) (xs ys : List (String × String × ℕ)) (old : ℕ)
    → upserted_push service node (xs ++ ys) old
      ≡ upserted_push service node ys (upserted_push service node xs old)
upserted_push-append service node [] ys old = refl
upserted_push-append service node ((s, n, c) ∷ xs) ys old =
    upserted_push-append service node xs ys
      (if service == s then (if node == n then c else old) else old)

found_of : {A : Type 0} → A → Reply A → A
found_of a (rows x) = x
found_of a no_rows = a
found_of a failed = a

-- The memory takes every target.
abbrev pub Known : Memory → String → Target → Type 0
Known s service t = Unit

pub in_memory-IsLawful : IsLawful in_memory stored_count Known
unfolding found_of
in_memory-IsLawful = record {
  setup_rows = λ s service c h. ap (found_of 0) h;
  setup_no_rows = λ s service h. ground arith;
  push_rows = λ s service found h.
      let e = ap (found_of []) h in
      (
        subst NodupKeys e (collect-NodupKeys service s.1 [] tt),
        λ node.
            sym (
              row_count-collect service node s.1 []
              ∙ ap (λ o. upserted_push service node s.1 (row_count o)) (lookup-nil node))
            ∙ ap (λ m. row_count (lookup m node)) e,
      );
  push_no_rows = λ s service node h. ground arith;
  setup_updated = λ s s' new service h.
      let e = ap (λ p. p.0) h in
      (
        λ _. ap (λ x. upserted service x.0 0) (sym e) ∙ upserted-append service s.0 new 0,
        λ node. (ap (λ x. upserted_push service node x.1 0) (sym e), λ _. tt),
      );
  push_updated = λ s s' new service h.
      let e = ap (λ p. p.0) h in
      (
        ap (λ x. upserted service x.0 0) (sym e),
        λ node _.
            ap (λ x. upserted_push service node x.1 0) (sym e)
            ∙ upserted_push-append service node s.1 new 0,
      );
}
