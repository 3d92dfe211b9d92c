-- ===== src/Registry/Invariant.antt =====
-- What every registry that the operations build satisfies.
use ai_peer.Base.{
  ℤ, String, ◌≡◌, refl, ◌≢◌, ◌⊎◌, inl, inr, true, false, Option, none, some, List, [], ◌∷◌, arith,
  Map, lookup, Distinct, insert-Distinct, Every, Every-insert, Every-lookup, Absent, Sorted,
  Sorted-sort_by, IsStrictOrder, ltb_str, ltb_str_irrefl, ltb_str_trans, ltb_str_total, Bool-cases,
  Option-cases, ltb_ℤ, ◌==◌, string_eq,
}
use text.Mathlib.TextEquality.{eq_iff}
use ai_peer.Wire.{HealthUpdate, NodeAnnounce}
use ai_peer.Registry.{
  Registry, NodeRecord, HealthJson, Result, ok, err, Opt, apply_health_proto, apply_health_json,
  apply_node_announce_proto, prune_from, prune_stale, cutoff, upsert, or_blank, set_health,
  set_health_json, set_announce, new, apply_options, apply_option, with_missed_heartbeat_limit,
  with_clock, is_empty,
}

ltb_str_cotrans :
    (a b c : String) → ltb_str a c ≡ true → (ltb_str a b ≡ true) ⊎ (ltb_str b c ≡ true)
ltb_str_cotrans a b c h = elim (Bool-cases (ltb_str a b)) [
  | inl p ↦ inl p
  | inr p ↦ elim (Bool-cases (ltb_str b a)) [
    | inl q ↦ inr (ltb_str_trans b a c q h)
    | inr q ↦ inr (let e : a ≡ b = ltb_str_total a b p q in rw (← e) h)
  ]
]

-- Go's order on strings is strict, and its ties are equal strings.
pub ltb_str-IsStrictOrder : IsStrictOrder ltb_str
ltb_str-IsStrictOrder = record {
  irrefl = ltb_str_irrefl;
  trans = ltb_str_trans;
  cotrans = ltb_str_cotrans;
}

-- The record is filed under its own node id, which is not empty, with its models in order.
pub record IsFiled (id : String) (rec : NodeRecord) : Type 0 where
  pub named : rec.node_id ≡ id
  pub nonempty : id ≢ ""
  pub ordered : Sorted ltb_str rec.models

pub record IsValid (r : Registry) : Type 0 where
  pub distinct : Distinct r.nodes
  pub filed : Every IsFiled r.nodes

or_blank-IsFiled :
    (id : String) (r : Registry)
    → IsValid r
    → id ≢ ""
    → IsFiled id (or_blank id (lookup id r.nodes))
or_blank-IsFiled id r v ne = elim (Option-cases (lookup id r.nodes)) [
  | inl e ↦ rw (e, or_blank) (record { named = refl; nonempty = ne; ordered = tt })
  | inr (rec, e) ↦ rw (e, or_blank) (Every-lookup IsFiled id rec r.nodes e v.filed)
]

upsert-IsValid :
    (id : String) (change : NodeRecord → NodeRecord) (r : Registry)
    → IsValid r
    → id ≢ ""
    → ((rec : NodeRecord) → IsFiled id rec → IsFiled id (change rec))
    → IsValid (upsert id change r)
upsert-IsValid id change r v ne keeps = record {
  distinct = insert-Distinct id _ r.nodes v.distinct;
  filed = Every-insert IsFiled id _ r.nodes (keeps _ (or_blank-IsFiled id r v ne)) v.filed;
}

set_health_json-IsFiled :
    (now : ℤ) (hj : HealthJson) (id : String) (rec : NodeRecord)
    → IsFiled id rec
    → IsFiled id (set_health_json now hj rec)
set_health_json-IsFiled now hj id rec f = record {
  named = f.named;
  nonempty = f.nonempty;
  ordered = elim (Bool-cases (is_empty hj.models)) [
    | inl e ↦ rw e f.ordered
    | inr e ↦ rw e (Sorted-sort_by ltb_str ltb_str-IsStrictOrder hj.models)
  ];
}

set_announce-IsFiled :
    (now : ℤ) (msg : NodeAnnounce) (id : String) (rec : NodeRecord)
    → IsFiled id rec
    → IsFiled id (set_announce now msg rec)
set_announce-IsFiled now msg id rec f = record {
  named = f.named;
  nonempty = f.nonempty;
  ordered = Sorted-sort_by ltb_str ltb_str-IsStrictOrder msg.models;
}

-- A failed update leaves the registry as it was.
abbrev pub after : Registry → Result Registry → Registry
after r (ok r') = r'
after r (err e) = r

ne_of_test : (s : String) → (s == "") ≡ false → s ≢ ""
ne_of_test s h e = cc (h, (eq_iff s "").1 e)

apply_health_proto-IsValid :
    (now : ℤ) (msg : Option HealthUpdate) (r : Registry)
    → IsValid r
    → IsValid (after r (apply_health_proto now msg r))
unfolding apply_health_proto
apply_health_proto-IsValid now none r v = v
apply_health_proto-IsValid now (some msg) r v = elim (Bool-cases (msg.node_id == "")) [
  | inl e ↦ rw e v
  | inr e ↦ rw e (
      upsert-IsValid msg.node_id (set_health now msg) r v (ne_of_test msg.node_id e)
        (λ rec f. record { named = f.named; nonempty = f.nonempty; ordered = f.ordered }))
]

apply_health_json-IsValid :
    (decode : String → Option HealthJson) (now : ℤ) (payload : String) (r : Registry)
    → IsValid r
    → IsValid (after r (apply_health_json decode now payload r))
unfolding apply_health_json
apply_health_json-IsValid decode now payload r v = elim (Option-cases (decode payload)) [
  | inl e ↦ rw (e, apply_health_json) v
  | inr (hj, e) ↦ elim (Bool-cases (hj.node_id == "")) [
    | inl f ↦ rw (e, apply_health_json) (rw f v)
    | inr f ↦
        rw (e, apply_health_json)
          (rw f (
            upsert-IsValid hj.node_id (set_health_json now hj) r v (ne_of_test hj.node_id f)
              (set_health_json-IsFiled now hj hj.node_id)))
  ]
]

apply_node_announce_proto-IsValid :
    (now : ℤ) (msg : Option NodeAnnounce) (r : Registry)
    → IsValid r
    → IsValid (after r (apply_node_announce_proto now msg r))
unfolding apply_node_announce_proto
apply_node_announce_proto-IsValid now none r v = v
apply_node_announce_proto-IsValid now (some msg) r v = elim (Bool-cases (msg.node_id == "")) [
  | inl e ↦ rw e v
  | inr e ↦ rw e (
      upsert-IsValid msg.node_id (set_announce now msg) r v (ne_of_test msg.node_id e)
        (set_announce-IsFiled now msg msg.node_id))
]

prune_from-Absent :
    (limit : ℤ) (k : String) (m : Map NodeRecord) → Absent k m → Absent k (prune_from limit m).0
unfolding prune_from
prune_from-Absent limit k [] h = tt
prune_from-Absent limit k ((j, rec) ∷ m) h = ground (arith, prune_from-Absent limit k m)

prune_from-Distinct :
    (limit : ℤ) (m : Map NodeRecord) → Distinct m → Distinct (prune_from limit m).0
unfolding prune_from
prune_from-Distinct limit [] h = tt
prune_from-Distinct limit ((j, rec) ∷ m) h =
    ground (arith, prune_from-Absent limit j m, prune_from-Distinct limit m)

prune_from-Every :
    (limit : ℤ) (m : Map NodeRecord) → Every IsFiled m → Every IsFiled (prune_from limit m).0
unfolding prune_from
prune_from-Every limit [] h = tt
prune_from-Every limit ((j, rec) ∷ m) (f, h) = elim (Bool-cases (ltb_ℤ rec.last_seen limit)) [
  | inl e ↦ rw e (prune_from-Every limit m h)
  | inr e ↦ rw e (f, prune_from-Every limit m h)
]

prune_stale-IsValid : (now : ℤ) (r : Registry) → IsValid r → IsValid (prune_stale now r).0
unfolding prune_stale
prune_stale-IsValid now r v = record {
  distinct = prune_from-Distinct (cutoff now r) r.nodes v.distinct;
  filed = prune_from-Every (cutoff now r) r.nodes v.filed;
}

-- One update of the gossip listener or one round of the eviction loop, with the clock's reading.
pub data Call : Type 0 where
  health : Option HealthUpdate → Call
  health_json : String → Call
  announce : Option NodeAnnounce → Call
  prune : Call

unfoldable pub step : (String → Option HealthJson) → Registry → ℤ × Call → Registry
step decode r (now, health msg) = after r (apply_health_proto now msg r)
step decode r (now, health_json payload) = after r (apply_health_json decode now payload r)
step decode r (now, announce msg) = after r (apply_node_announce_proto now msg r)
step decode r (now, prune) = (prune_stale now r).0

unfoldable pub run : (String → Option HealthJson) → Registry → List (ℤ × Call) → Registry
run decode r [] = r
run decode r (c ∷ cs) = run decode (step decode r c) cs

pub step-IsValid :
    (decode : String → Option HealthJson) (r : Registry) (c : ℤ × Call)
    → IsValid r
    → IsValid (step decode r c)
unfolding step
step-IsValid decode r (now, health msg) v = apply_health_proto-IsValid now msg r v
step-IsValid decode r (now, health_json payload) v =
    apply_health_json-IsValid decode now payload r v
step-IsValid decode r (now, announce msg) v = apply_node_announce_proto-IsValid now msg r v
step-IsValid decode r (now, prune) v = prune_stale-IsValid now r v

apply_options-nodes : (os : List Opt) (r : Registry) → (apply_options os r).nodes ≡ r.nodes
unfolding apply_options apply_option
apply_options-nodes [] r = refl
apply_options-nodes (with_missed_heartbeat_limit n ∷ os) r =
    ground (arith, apply_options-nodes os (apply_option (with_missed_heartbeat_limit n) r))
apply_options-nodes (with_clock ∷ os) r = apply_options-nodes os r

new-IsValid : (interval : ℤ) (opts : List Opt) → IsValid (new interval opts)
unfolding new
new-IsValid interval opts = record {
  distinct = rw (apply_options-nodes opts _) tt;
  filed = rw (apply_options-nodes opts _) tt;
}

run_from-IsValid :
    (decode : String → Option HealthJson) (r : Registry) (cs : List (ℤ × Call))
    → IsValid r
    → IsValid (run decode r cs)
unfolding run
run_from-IsValid decode r [] v = v
run_from-IsValid decode r (c ∷ cs) v =
    run_from-IsValid decode (step decode r c) cs (step-IsValid decode r c v)

-- After any history of health updates, heartbeats, announcements and evictions, valid or not, the
-- registry holds one record for each node id, filed under its own id, which is not empty, with its
-- models in order.
pub run-IsValid :
    (decode : String → Option HealthJson) (interval : ℤ) (opts : List Opt) (cs : List (ℤ × Call))
    → IsValid (run decode (new interval opts) cs)
run-IsValid decode interval opts cs = run_from-IsValid decode _ cs (new-IsValid interval opts)
