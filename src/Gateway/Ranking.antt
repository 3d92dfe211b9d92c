-- ===== src/Gateway/Ranking.antt =====
-- The order in which pkg/gateway/openai_proxy.go tries remote nodes: `rankedNodesForModel` and
-- `reorderNodesByPing`. The comparison functions are put together from their steps.
pub mod Orders
pub mod Sorting
pub mod Tests
use ai_peer.Base.{
  String, Bool, true, false, ℤ, ℕ, pos, ltb_ℤ, leb_ℤ, quot, Option, none, some, List, [], ◌∷◌,
  if◌then◌else◌, ◌==◌, int_eq, not, ◌&&◌, ltb, length, map, sort_by, ltb_str, string_eq,
}
use ai_peer.Dataplane.Tables.{Result, ok, err}
use ai_peer.Registry.{Registry, NodeRecord, nodes_for_model, by_node_id}

abbrev pub same : Bool → Bool → Bool
same true b = b
same false b = not b

module _ {A : Type 0} where
  -- if a.key != b.key { return a.key < b.key }
  abbrev pub less_first : (A → ℤ) → (A → A → Bool) → A → A → Bool
  less_first key rest a b = if not (key a == key b) then ltb_ℤ (key a) (key b) else rest a b

  -- if a.key != b.key { return a.key > b.key }
  abbrev pub more_first : (A → ℤ) → (A → A → Bool) → A → A → Bool
  more_first key rest a b = if not (key a == key b) then ltb_ℤ (key b) (key a) else rest a b

  -- if a.has != b.has { return a.has }
  abbrev pub having_first : (A → Bool) → (A → A → Bool) → A → A → Bool
  having_first has rest a b = if not (same (has a) (has b)) then has a else rest a b

  -- The same, and then, if both have it, the lesser key.
  abbrev pub having_less : (A → Bool) → (A → ℤ) → (A → A → Bool) → A → A → Bool
  having_less has key rest =
      having_first has
        λ a b. if has a && not (key a == key b) then ltb_ℤ (key a) (key b) else rest a b

  -- The same, and then, if both have it, the greater key.
  abbrev pub having_more : (A → Bool) → (A → ℤ) → (A → A → Bool) → A → A → Bool
  having_more has key rest =
      having_first has
        λ a b. if has a && not (key a == key b) then ltb_ℤ (key b) (key a) else rest a b

abbrev pub has_ttft : NodeRecord → Bool
has_ttft n = ltb_ℤ (pos 0) n.ttft_ms

abbrev pub has_decode : NodeRecord → Bool
has_decode n = ltb_ℤ (pos 0) n.decode_tps

unfoldable pub ranks_before : NodeRecord → NodeRecord → Bool
ranks_before =
    less_first (λ n. n.load)
      (having_less has_ttft (λ n. n.ttft_ms)
        (having_more has_decode (λ n. n.decode_tps)
          (less_first (λ n. n.latency_ms)
            (more_first (λ n. n.uptime_sec) (more_first (λ n. n.last_seen) by_node_id)))))

unfoldable pub ranked_nodes_for_model : Option Registry → String → List NodeRecord
ranked_nodes_for_model none model = []
ranked_nodes_for_model (some reg) model =
    if model == "" then [] else sort_by ranks_before (nodes_for_model model reg)

pub record Candidate : Type 0 where
  pub rec : NodeRecord
  pub ping_ms : ℤ
  pub has_ping : Bool
  pub fallback : ℤ

-- A node with what its ping took, in nanoseconds, if it answered.
abbrev pub candidate_of : NodeRecord → Result ℤ → Candidate
candidate_of n (ok d) =
    if leb_ℤ (pos 0) d
    then record { rec = n; ping_ms = quot d 1_000_000; has_ping = true; fallback = n.latency_ms }
    else record { rec = n; ping_ms = n.latency_ms; has_ping = false; fallback = n.latency_ms }
candidate_of n (err e) = record {
  rec = n;
  ping_ms = n.latency_ms;
  has_ping = false;
  fallback = n.latency_ms;
}

unfoldable pub pings_before : Candidate → Candidate → Bool
pings_before =
    less_first (λ c. c.ping_ms)
      (having_first (λ c. c.has_ping)
        (less_first (λ c. c.fallback) (λ a b. by_node_id a.rec b.rec)))

abbrev pub with_ping : Candidate → NodeRecord
with_ping c = record c.rec { latency_ms = c.ping_ms }

unfoldable pub reorder_nodes_by_ping :
    Option (String → Result ℤ) → List NodeRecord → List NodeRecord
reorder_nodes_by_ping none nodes = nodes
reorder_nodes_by_ping (some latency) nodes =
    if ltb (length nodes) 2
    then nodes
    else map with_ping (sort_by pings_before (map (λ n. candidate_of n (latency n.node_id)) nodes))
