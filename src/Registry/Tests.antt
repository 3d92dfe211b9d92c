-- ===== src/Registry/Tests.antt =====
-- A registry with two nodes, and the registry's theorems at it.
use mathlib.Core.List.{Permᴰ}
use ai_peer.Registry.Staleness.{prune_stale_window}
use ai_peer.Registry.Listing.{nodes_for_model_iff, listing_ignores_map_order}
use ai_peer.Registry.{
  NodeRecord, Registry, nodes_for_model, new, len, set_health_json, apply_health_json, HealthJson,
  prune_stale, blank, records, by_node_id, list_nodes,
}
use ai_peer.Base.{
  In, String, List, ℤ, Option, ◌↔◌, pos, ◌≢◌, [], if◌then◌else◌, ◌∷◌, ◌==◌, none, Sorted, some,
  string_eq, ◌≡◌, lookup, refl, ◌≤ℤ◌, ◌+ℤ◌, ◌*◌, ◌+◌, arith,
}
use ai_peer.Registry.Invariant.{run, IsValid, run-IsValid, step, Call, health_json}

abbrev two_heartbeats : String → Option HealthJson
two_heartbeats payload =
    if payload == "bad"
    then none
    else some (record {
      node_id = payload;
      uptime_sec = pos 10;
      load = pos 0;
      latency_ms = pos 5;
      ttft_ms = pos 1;
      decode_tps = pos 2;
      timestamp_ms = pos 0;
      models = "llama3" ∷ "gemma" ∷ [];
      model_pricing = [];
    })

abbrev history : List (ℤ × Call)
history =
    (pos 100, health_json "b") ∷ (pos 200, health_json "bad") ∷ (pos 300, health_json "a") ∷ []

abbrev two_nodes : Registry
two_nodes = run two_heartbeats (new (pos 100) []) history

abbrev swapped : Registry
swapped =
    run two_heartbeats (new (pos 100) [])
      ((pos 300, health_json "a") ∷ (pos 100, health_json "b") ∷ [])

abbrev node_a : NodeRecord
node_a =
    set_health_json (pos 300)
      (record {
        node_id = "a";
        uptime_sec = pos 10;
        load = pos 0;
        latency_ms = pos 5;
        ttft_ms = pos 1;
        decode_tps = pos 2;
        timestamp_ms = pos 0;
        models = "llama3" ∷ "gemma" ∷ [];
        model_pricing = [];
      })
      (blank "a")

run-IsValid_example : IsValid two_nodes
run-IsValid_example = run-IsValid two_heartbeats (pos 100) [] history

prune_stale_window_example :
    ((lookup "a" (prune_stale (pos 500) two_nodes).0.nodes ≡ some node_a) ↔ (
      (lookup "a" two_nodes.nodes ≡ some node_a) × (pos 500 ≤ℤ node_a.last_seen +ℤ pos (100 * 3))))
    × ((prune_stale (pos 500) two_nodes).1 + len (prune_stale (pos 500) two_nodes).0
        ≡ len two_nodes)
unfolding run step apply_health_json new
prune_stale_window_example =
    prune_stale_window (pos 500) two_nodes 100 3 "a" node_a
      (run-IsValid two_heartbeats (pos 100) [] history) refl refl (omega arith) (omega arith)

pruned : (prune_stale (pos 500) two_nodes).1 ≡ 1
unfolding run step apply_health_json new prune_stale ai_peer.Base.insert ◌+ℤ◌ ai_peer.Base.mul64
    ai_peer.Base.wrap64 ai_peer.Base.◌*ℤ◌
pruned = refl

nodes_for_model_iff_example :
    (In node_a (nodes_for_model "gemma" two_nodes) ↔ (
      (◌≢◌ {A = String} "gemma" "")
      × In "gemma" node_a.models
      × In node_a (records two_nodes.nodes)))
    × Sorted by_node_id (nodes_for_model "gemma" two_nodes)
    × (In node_a (list_nodes two_nodes) ↔ In node_a (records two_nodes.nodes))
    × Sorted by_node_id (list_nodes two_nodes)
nodes_for_model_iff_example = nodes_for_model_iff "gemma" two_nodes node_a

listing_ignores_map_order_example :
    (list_nodes two_nodes ≡ list_nodes swapped)
    × (nodes_for_model "gemma" two_nodes ≡ nodes_for_model "gemma" swapped)
unfolding run step apply_health_json new ai_peer.Base.insert lookup
listing_ignores_map_order_example =
    listing_ignores_map_order "gemma" two_nodes swapped
      (run-IsValid two_heartbeats (pos 100) [] history) (Permᴰ.swap refl refl)
