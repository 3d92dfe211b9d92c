-- ===== src/Gateway/Ranking/Tests.antt =====
-- Three nodes, and the order in which they are tried.
use ai_peer.Base.{
  String, ℤ, pos, some, List, [], ◌∷◌, ◌↔◌, ◌≢◌, arith, if◌then◌else◌, ◌==◌, string_eq, In, map,
  Sorted,
}
use ai_peer.Dataplane.Tables.{Result, ok, err}
use ai_peer.Registry.{Registry, NodeRecord, blank, records}
use ai_peer.Gateway.Ranking.{ranks_before, ranked_nodes_for_model, reorder_nodes_by_ping}
use ai_peer.Gateway.Ranking.Sorting.{
  by_load, by_latency, measured, ranked_nodes_for_model_lem, reorder_nodes_by_ping_lem,
}

abbrev loaded : String → ℤ → ℤ → NodeRecord
loaded id load latency = record (blank id) {
  models = "llama3" ∷ [];
  load = load;
  latency_ms = latency;
}

abbrev pub three : Registry
three = record {
  nodes =
      ("a", loaded "a" (pos 3) (pos 5))
      ∷ ("b", loaded "b" (pos 1) (pos 9))
      ∷ ("c", loaded "c" (pos 2) (pos 7))
      ∷ [];
  heartbeat_interval = pos 30_000_000_000;
  missed_limit = pos 3;
}

ranked_nodes_for_model_lem_example :
    Sorted ranks_before (ranked_nodes_for_model (some three) "llama3")
    × Sorted by_load (ranked_nodes_for_model (some three) "llama3")
    × ((n : NodeRecord)
        → In n (ranked_nodes_for_model (some three) "llama3")
          ↔ ((◌≢◌ {A = String} "llama3" "") × In "llama3" n.models × In n (records three.nodes)))
ranked_nodes_for_model_lem_example = ranked_nodes_for_model_lem "llama3" three

-- The second node does not answer.
abbrev pings : String → Result ℤ
pings id = if id == "c" then err "timeout" else ok (pos 4_000_000)

abbrev two_nodes : List NodeRecord
two_nodes = loaded "c" (pos 1) (pos 9) ∷ loaded "a" (pos 2) (pos 20) ∷ []

reorder_nodes_by_ping_lem_example :
    Sorted by_latency (reorder_nodes_by_ping (some pings) two_nodes)
    × ((n : NodeRecord)
        → In n (reorder_nodes_by_ping (some pings) two_nodes)
          ↔ In n (map (measured pings) two_nodes))
reorder_nodes_by_ping_lem_example = reorder_nodes_by_ping_lem pings two_nodes (omega arith)
