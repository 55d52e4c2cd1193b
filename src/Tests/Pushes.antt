-- ===== src/Tests/Pushes.antt =====
-- Pushes to nodes, at concrete rounds.
use managed_tokens.Base.{ℕ, zero, suc, ◌+◌, ◌^◌, ◌≤◌, ◌≡◌, refl, ◌↔◌, true, false, arith}
use managed_tokens.Base.{none, some, String, List, [], ◌∷◌, if◌then◌else◌, string_comparable}
use managed_tokens.Base.Dict.{lookup}
use managed_tokens.Base.Integers.{to_int}
use managed_tokens.Worker.PushToNode.{
  Try, PushError, copy_failed, not_pingable_earlier, push_loop, push_to_node, push_rounds,
}
use managed_tokens.Worker.PushToNode.Retries.{FirstCopy, push_to_node_succeeds}
use managed_tokens.Worker.PushTokens.{PushTokensConfig, Ended, start, end_pushes, push_service}
use managed_tokens.Worker.PushTokens.Reports.{
  node_failed, about, nodes-end_pushes, push_service_report,
}

-- Only the third round copies the file.
abbrev third_time : ℕ → Try
third_time (suc (suc zero)) = record {
  before = none;
  copied = true;
  unpingable = false;
  after = none;
}
third_time _ = record { before = none; copied = false; unpingable = false; after = none }

three_copies : push_to_node third_time 5 ≡ record { error = none; copies = 3 }
unfolding push_to_node push_loop push_rounds to_int
three_copies = refl

one_retry : push_to_node third_time 1 ≡ record { error = some copy_failed; copies = 2 }
unfolding push_to_node push_loop push_rounds to_int
one_retry = refl

push_to_node_succeeds_example :
    (((push_to_node third_time 5).error ≡ none) ↔ ((k : ℕ) × (k ≤ 5) × FirstCopy third_time 0 k))
    × ((push_to_node third_time 5).copies ≤ 5 + 1)
push_to_node_succeeds_example = push_to_node_succeeds third_time 5 (omega arith)

-- As an int 2 ^ 63 is negative: nothing is copied, and there is no error.
too_many_retries :
    ((push_to_node third_time (2 ^ 63)).copies ≡ 0)
    × ((push_to_node third_time (2 ^ 63)).error ≡ none)
unfolding push_to_node push_rounds to_int
too_many_retries = (refl, refl)

abbrev nodes : List String
nodes = "node1" ∷ "node2" ∷ []

abbrev push_to : String → PushTokensConfig
push_to node = record {
  source_path = "/tmp/vt_u1000-dune_production";
  node = node;
  account = "dunepro";
  destination_path = "/tmp/vt_u1000";
  unpingable = false;
  file_copier_options = [];
  ssh_options = [];
  error_on_fail = true;
  num_retries = 3;
  retry_sleep_duration = 60;
  cleanup = false;
}

-- Two failures at one node, and one success.
abbrev ended_pushes : List Ended
ended_pushes =
    record { config = push_to "node1"; error = some copy_failed }
    ∷ record { config = push_to "node1"; error = some not_pingable_earlier }
    ∷ record { config = push_to "node2"; error = none }
    ∷ []

abbrev text_of : PushError → String
text_of _ = "failed"

nodes-end_pushes_example :
    let s = start nodes in
    let s' = end_pushes text_of "dune_production" s ended_pushes in
    (lookup s'.success_nodes "node1"
      ≡ (if node_failed "node1" ended_pushes then none else lookup s.success_nodes "node1"))
    × (lookup s'.fail_nodes "node1"
        ≡ (if node_failed "node1" ended_pushes then some true else lookup s.fail_nodes "node1"))
nodes-end_pushes_example =
    nodes-end_pushes text_of "dune_production" "node1" ended_pushes (start nodes)

push_service_report_example :
    let report =
      push_service text_of "dune_production" "dune_production" nodes (some ended_pushes) in
    (report.success ≡ false) × (about "node1" report.notifications ≡ 1)
unfolding string_comparable
push_service_report_example =
    push_service_report text_of "dune_production" "dune_production" nodes ended_pushes "node1"
