-- ===== src/Registry.antt =====
-- pkg/registry/registry.go: the in-memory view of remote nodes. The map of node records is an
-- association list; each operation takes the clock's reading as an argument, and is one critical
-- section of the source's mutex.
pub mod Invariant
pub mod Staleness
pub mod Listing
mod Tests
use ai_peer.Base.{
  ℕ, suc, ℤ, pos, neg, String, Bool, true, false, Option, none, some, List, [], ◌∷◌, map, Map,
  lookup, insert, any, length, ltb_ℤ, leb_ℤ, ltb_str, ◌==◌, string_eq, if◌then◌else◌, ◌+ℤ◌, ◌*ℤ◌,
  mul64, wrap64, sort_by,
}
use ai_peer.Wire.{Float64, NodeAnnounce, HealthUpdate}

-- The default of `missedLimit`.
abbrev pub default_missed_heartbeat_limit : ℤ
default_missed_heartbeat_limit = pos 3

pub record ModelPricingHint : Type 0 where
  pub price_per_1k_atomic : ℤ
  pub min_amount_atomic : ℤ
  pub max_amount_atomic : ℤ
  pub default_output_tokens : ℤ

-- Times are nanoseconds since the epoch.
pub record NodeRecord : Type 0 where
  pub node_id : String
  pub models : List String
  pub model_pricing : Map ModelPricingHint
  pub hardware_summary : String
  pub location_hint : String
  pub pricing_hint : String
  pub last_seen : ℤ
  pub uptime_sec : ℤ
  pub load : Float64
  pub latency_ms : ℤ
  pub ttft_ms : ℤ
  pub decode_tps : Float64

pub record HealthJson : Type 0 where
  pub node_id : String
  pub uptime_sec : ℤ
  pub load : Float64
  pub latency_ms : ℤ
  pub ttft_ms : ℤ
  pub decode_tps : Float64
  pub timestamp_ms : ℤ
  pub models : List String
  pub model_pricing : Map ModelPricingHint

pub record Registry : Type 0 where
  pub nodes : Map NodeRecord
  pub heartbeat_interval : ℤ
  pub missed_limit : ℤ

-- `WithClock` only replaces the source of the times that the operations take.
pub data Opt : Type 0 where
  with_missed_heartbeat_limit : ℤ → Opt
  with_clock : Opt

unfoldable pub apply_option : Opt → Registry → Registry
apply_option (with_missed_heartbeat_limit n) r =
    if ltb_ℤ (pos 0) n then record r { missed_limit = n } else r
apply_option with_clock r = r

apply_options : List Opt → Registry → Registry
apply_options [] r = r
apply_options (o ∷ os) r = apply_options os (apply_option o r)

unfoldable pub new : ℤ → List Opt → Registry
unfolding apply_option apply_options
new interval opts = apply_options opts (record {
  nodes = [];
  heartbeat_interval = if leb_ℤ interval (pos 0) then pos 30_000_000_000 else interval;
  missed_limit = default_missed_heartbeat_limit;
})

pub data Error : Type 0 where
  nil_update nil_announce empty_node_id decode_failed : Error

pub data Result {ℓ} (A : Type ℓ) : Type ℓ where
  ok : A → Result A
  err : Error → Result A

-- `&NodeRecord{NodeID: id}`
abbrev pub blank : String → NodeRecord
blank id = record {
  node_id = id;
  models = [];
  model_pricing = [];
  hardware_summary = "";
  location_hint = "";
  pricing_hint = "";
  last_seen = pos 0;
  uptime_sec = pos 0;
  load = pos 0;
  latency_ms = pos 0;
  ttft_ms = pos 0;
  decode_tps = pos 0;
}

abbrev pub or_blank : String → Option NodeRecord → NodeRecord
or_blank id none = blank id
or_blank id (some rec) = rec

-- The message's own time in milliseconds if it has one, else the clock's.
abbrev pub seen_at : ℤ → ℤ → ℤ
seen_at now timestamp_ms = if ltb_ℤ (pos 0) timestamp_ms then timestamp_ms *ℤ pos 1_000_000 else now

-- The record of `id`, made when it is missing, is changed in place.
abbrev pub upsert : String → (NodeRecord → NodeRecord) → Registry → Registry
upsert id change r = record r {
  nodes = insert id (change (or_blank id (lookup id r.nodes))) r.nodes;
}

abbrev pub set_health : ℤ → HealthUpdate → NodeRecord → NodeRecord
set_health now msg rec = record rec {
  last_seen = seen_at now msg.timestamp_ms;
  uptime_sec = msg.uptime_sec;
  load = msg.load;
  latency_ms = msg.latency_ms;
}

unfoldable pub apply_health_proto : ℤ → Option HealthUpdate → Registry → Result Registry
apply_health_proto now none r = err nil_update
apply_health_proto now (some msg) r =
    if msg.node_id == "" then err empty_node_id else ok (upsert msg.node_id (set_health now msg) r)

abbrev pub set_models : List String → NodeRecord → NodeRecord
set_models models rec = record rec { models = sort_by ltb_str models }

-- `cloneModelPricing`: a map is a value here, so a copy is the map itself.
abbrev pub clone_model_pricing : Map ModelPricingHint → Map ModelPricingHint
clone_model_pricing pricing = pricing

abbrev pub clone_record : NodeRecord → NodeRecord
clone_record rec = record rec { model_pricing = clone_model_pricing rec.model_pricing }

abbrev pub is_empty {ℓ} : {A : Type ℓ} → List A → Bool
is_empty [] = true
is_empty (x ∷ xs) = false

-- Models and prices are kept when the heartbeat names none.
abbrev pub set_health_json : ℤ → HealthJson → NodeRecord → NodeRecord
set_health_json now hj rec = record rec {
  last_seen = seen_at now hj.timestamp_ms;
  uptime_sec = hj.uptime_sec;
  load = hj.load;
  latency_ms = hj.latency_ms;
  ttft_ms = hj.ttft_ms;
  decode_tps = hj.decode_tps;
  models = if is_empty hj.models then rec.models else sort_by ltb_str hj.models;
  model_pricing =
      if is_empty hj.model_pricing then rec.model_pricing else clone_model_pricing hj.model_pricing;
}

-- `decode` is `json.Unmarshal` at the type of the heartbeat.
unfoldable pub apply_health_json :
    (String → Option HealthJson) → ℤ → String → Registry → Result Registry
apply_health_json decode now payload r = elim (decode payload) [
  | none ↦ err decode_failed
  | some hj ↦
      if hj.node_id == ""
      then err empty_node_id
      else ok (upsert hj.node_id (set_health_json now hj) r)
]

abbrev pub set_announce : ℤ → NodeAnnounce → NodeRecord → NodeRecord
set_announce now msg rec = record rec {
  last_seen = seen_at now msg.timestamp_ms;
  models = sort_by ltb_str msg.models;
  hardware_summary = msg.hardware_summary;
  location_hint = msg.location_hint;
  pricing_hint = msg.pricing_hint;
}

unfoldable pub apply_node_announce_proto : ℤ → Option NodeAnnounce → Registry → Result Registry
apply_node_announce_proto now none r = err nil_announce
apply_node_announce_proto now (some msg) r =
    if msg.node_id == ""
    then err empty_node_id
    else ok (upsert msg.node_id (set_announce now msg) r)

-- `r.now().Add(-r.heartbeatInterval * time.Duration(r.missedLimit))`
unfoldable pub cutoff : ℤ → Registry → ℤ
cutoff now r = now +ℤ mul64 (wrap64 (neg r.heartbeat_interval)) r.missed_limit

-- The loop of `PruneStale` and its counter.
prune_from : ℤ → Map NodeRecord → Map NodeRecord × ℕ
prune_from limit [] = ([], 0)
prune_from limit ((id, rec) ∷ nodes) =
    let (rest, removed) = prune_from limit nodes in
    if ltb_ℤ rec.last_seen limit then (rest, suc removed) else ((id, rec) ∷ rest, removed)

unfoldable pub prune_stale : ℤ → Registry → Registry × ℕ
unfolding prune_from cutoff
prune_stale now r =
    let (rest, removed) = prune_from (cutoff now r) r.nodes in (record r { nodes = rest }, removed)

abbrev pub by_node_id : NodeRecord → NodeRecord → Bool
by_node_id a b = ltb_str a.node_id b.node_id

abbrev pub records : Map NodeRecord → List NodeRecord
records nodes = map (λ e. clone_record (e.1)) nodes

abbrev pub advertises : String → NodeRecord → Bool
advertises model rec = any (λ m. m == model) rec.models

-- The loop of `NodesForModel`; an empty model matches nothing.
unfoldable pub matching : String → List NodeRecord → List NodeRecord
matching model [] = []
matching model (rec ∷ recs) =
    let rest = matching model recs in
    if model == "" then rest else if advertises model rec then rec ∷ rest else rest

unfoldable pub nodes_for_model : String → Registry → List NodeRecord
unfolding matching
nodes_for_model model r = sort_by by_node_id (matching model (records r.nodes))

unfoldable pub list_nodes : Registry → List NodeRecord
list_nodes r = sort_by by_node_id (records r.nodes)

unfoldable pub len : Registry → ℕ
len r = length r.nodes
