-- ===== src/Gateway/Ranking/Sorting.antt =====
-- What the two sorts give.
use ai_peer.Base.{
  String, Bool, true, false, ℤ, leb_ℤ, pos, negsuc, ◌/◌, ◌≤◌, ltb_ℤ, some, List, [], ◌∷◌, ◌≡◌, ◌↔◌,
  ◌∙◌, sym, ap, subst, ◌≢◌, refl, arith, inl, inr, ◌==◌, string_eq, ℤ_beq_iff, All, In, length, map,
  sort_by, Sorted, Sorted-sort_by, In-sort_by, Bool-cases, ltb,
}
use mathlib.Core.Path.{ap₂}
use text.Mathlib.TextEquality.{eq_iff}
use ai_peer.Dataplane.Tables.{Result, ok, err}
use ai_peer.Registry.{Registry, NodeRecord, records, nodes_for_model}
use ai_peer.Registry.Listing.{nodes_for_model_iff}
use ai_peer.Gateway.Ranking.{
  ranks_before, ranked_nodes_for_model, Candidate, candidate_of, pings_before, with_ping,
  reorder_nodes_by_ping,
}
use ai_peer.Gateway.Ranking.Orders.{ranks_before-IsStrictOrder, pings_before-IsStrictOrder}

module _ {A B : Type 0} (f : A → B) (less : A → A → Bool) (less' : B → B → Bool)
    (mono : (x y : A) → less y x ≡ false → less' (f y) (f x) ≡ false) where
  All-map-after :
      (x : A) (xs : List A)
      → All (λ y. less y x ≡ false) xs
      → All (λ y. less' y (f x) ≡ false) (map f xs)
  All-map-after x [] h = tt
  All-map-after x (y ∷ xs) (p, h) = (mono x y p, All-map-after x xs h)

  Sorted-map : (xs : List A) → Sorted less xs → Sorted less' (map f xs)
  Sorted-map [] h = tt
  Sorted-map (x ∷ xs) (p, h) = (All-map-after x xs p, Sorted-map xs h)

module _ {A B : Type 0} (f : A → B) where
  In-map : (b : B) (xs : List A) → In b (map f xs) ↔ ((a : A) × In a xs × (b ≡ f a))
  In-map b [] = (λ h. absurd h, λ h. absurd h.1)
  In-map b (x ∷ xs) =
      let (there, back) = In-map b xs in
      (
        λ h. elim h [ inl e ↦ (x, inl refl, e) | inr k ↦ let (a, m, e) = there k in (a, inr m, e) ],
        λ h. elim h.1 [ inl e ↦ inl (h.2 ∙ ap f e) | inr k ↦ inr (back (h.0, k, h.2)) ],
      )

module _ {A B : Type 0} (f : A → B) (less : A → A → Bool) where
  In-map-sort_by : (b : B) (xs : List A) → In b (map f (sort_by less xs)) ↔ In b (map f xs)
  In-map-sort_by b xs = (
    λ h.
        let (a, k, e) = (In-map f b (sort_by less xs)).0 h in
        (In-map f b xs).1 (a, (In-sort_by less a xs).0 k, e),
    λ h.
        let (a, k, e) = (In-map f b xs).0 h in
        (In-map f b (sort_by less xs)).1 (a, (In-sort_by less a xs).1 k, e),
  )

load_after : (a b : NodeRecord) → ranks_before b a ≡ false → ltb_ℤ b.load a.load ≡ false
unfolding ranks_before
load_after a b h = ground (arith, ℤ_beq_iff b.load a.load)

ping_after : (a b : Candidate) → pings_before b a ≡ false → ltb_ℤ b.ping_ms a.ping_ms ≡ false
unfolding pings_before
ping_after a b h = ground (arith, ℤ_beq_iff b.ping_ms a.ping_ms)

abbrev pub by_load : NodeRecord → NodeRecord → Bool
by_load a b = ltb_ℤ a.load b.load

abbrev pub by_latency : NodeRecord → NodeRecord → Bool
by_latency a b = ltb_ℤ a.latency_ms b.latency_ms

-- The latency in milliseconds: of a ping that took so many nanoseconds, or as it was announced where
-- the ping failed or took less than nothing.
abbrev pub ping_or : ℤ → Result ℤ → ℤ
ping_or announced (err e) = announced
ping_or announced (ok (pos d)) = pos (d / 1_000_000)
ping_or announced (ok (negsuc d)) = announced

abbrev pub measured : (String → Result ℤ) → NodeRecord → NodeRecord
measured latency n = record n { latency_ms = ping_or n.latency_ms (latency n.node_id) }

with_ping-candidate_of :
    (n : NodeRecord) (ping : Result ℤ)
    → with_ping (candidate_of n ping) ≡ record n { latency_ms = ping_or n.latency_ms ping }
with_ping-candidate_of n (err e) = refl
with_ping-candidate_of n (ok (pos d)) =
    let e : leb_ℤ (pos 0) (pos d) ≡ true = ground arith in rw e refl
with_ping-candidate_of n (ok (negsuc d)) =
    let e : leb_ℤ (pos 0) (negsuc d) ≡ false = ground arith in rw e refl

pinged :
    (latency : String → Result ℤ) (nodes : List NodeRecord)
    → map with_ping (map (λ n. candidate_of n (latency n.node_id)) nodes)
      ≡ map (measured latency) nodes
pinged latency [] = refl
pinged latency (n ∷ nodes) =
    ap₂ (λ x rest. x ∷ rest) (with_ping-candidate_of n (latency n.node_id)) (pinged latency nodes)

weaken_all :
    (a : NodeRecord) (xs : List NodeRecord)
    → All (λ y. ranks_before y a ≡ false) xs
    → All (λ y. by_load y a ≡ false) xs
weaken_all a [] h = tt
weaken_all a (x ∷ xs) (p, h) = (load_after a x p, weaken_all a xs h)

weaken : (xs : List NodeRecord) → Sorted ranks_before xs → Sorted by_load xs
weaken [] h = tt
weaken (x ∷ xs) (p, h) = (weaken_all x xs p, weaken xs h)

-- Sorting two nodes or more by ping keeps every node, with its latency in whole milliseconds as
-- measured, or as announced where the ping failed or took less than nothing, and puts them in the order
-- of these latencies.
pub reorder_nodes_by_ping_lem :
    (latency : String → Result ℤ) (nodes : List NodeRecord)
    → 2 ≤ length nodes
    → Sorted by_latency (reorder_nodes_by_ping (some latency) nodes)
      × ((n : NodeRecord)
          → In n (reorder_nodes_by_ping (some latency) nodes) ↔ In n (map (measured latency) nodes))
unfolding reorder_nodes_by_ping
reorder_nodes_by_ping_lem latency nodes h =
    let enough : ltb (length nodes) 2 ≡ false = ground arith in
    let found = map (λ n. candidate_of n (latency n.node_id)) nodes in
    rw enough (
      Sorted-map with_ping pings_before by_latency ping_after (sort_by pings_before found)
          (Sorted-sort_by pings_before pings_before-IsStrictOrder found),
      λ n. (
        λ k.
            subst (In n) (pinged latency nodes)
              ((In-map-sort_by with_ping pings_before n found).0 k),
        λ k.
            (In-map-sort_by with_ping pings_before n found).1
              (subst (In n) (sym (pinged latency nodes)) k),
      ),
    )

-- The nodes for a model come in the order of preference, so that none has a smaller load than one
-- before it, and they are the registry's nodes for that model.
pub ranked_nodes_for_model_lem :
    (model : String) (r : Registry)
    → Sorted ranks_before (ranked_nodes_for_model (some r) model)
      × Sorted by_load (ranked_nodes_for_model (some r) model)
      × ((n : NodeRecord)
          → In n (ranked_nodes_for_model (some r) model)
            ↔ ((model ≢ "") × In model n.models × In n (records r.nodes)))
unfolding ranked_nodes_for_model
ranked_nodes_for_model_lem model r = elim (Bool-cases (model == "")) [
  | inl e ↦ rw e (tt, tt, λ n. (λ h. absurd h, λ h. absurd (h.0 ((eq_iff model "").0 e))))
  | inr e ↦
      let nodes = nodes_for_model model r in
      let ordered : Sorted ranks_before (sort_by ranks_before nodes) =
        Sorted-sort_by ranks_before ranks_before-IsStrictOrder nodes in
      rw e (
        ordered,
        weaken (sort_by ranks_before nodes) ordered,
        λ n. (
          λ h. (nodes_for_model_iff model r n).0.0 ((In-sort_by ranks_before n nodes).0 h),
          λ h. (In-sort_by ranks_before n nodes).1 ((nodes_for_model_iff model r n).0.1 h),
        ),
      )
]
