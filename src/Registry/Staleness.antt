-- ===== src/Registry/Staleness.antt =====
-- Which nodes `PruneStale` evicts.
use ai_peer.Base.{
  ℕ, zero, suc, ◌+◌, ◌*◌, ◌^◌, ◌<◌, ℤ, pos, neg, ◌+ℤ◌, ◌*ℤ◌, ◌≤ℤ◌, String, ◌≡◌, refl, sym, ◌∙◌, ◌↔◌,
  inl, inr, false, Option, none, some, [], ◌∷◌, arith, Map, lookup, Distinct, lookup_of_Absent,
  Bool-cases, if◌then◌else◌, ltb_ℤ, ◌==◌, string_eq, mul64, wrap64_of_Int64, length, +ℤ_parts,
}
use mathlib.Core.Bool.{false≢true}
use text.Mathlib.TextEquality.{eq_iff}
use ai_peer.Registry.{Registry, NodeRecord, prune_from, prune_stale, cutoff, len}
use ai_peer.Registry.Invariant.{IsValid}

fresh_only : ℤ → Option NodeRecord → Option NodeRecord
fresh_only limit none = none
fresh_only limit (some rec) = if ltb_ℤ rec.last_seen limit then none else some rec

lookup-prune_from :
    (limit : ℤ) (id : String) (m : Map NodeRecord)
    → Distinct m
    → lookup id (prune_from limit m).0 ≡ fresh_only limit (lookup id m)
unfolding prune_from lookup fresh_only
lookup-prune_from limit id [] d = refl
lookup-prune_from limit id ((j, rec) ∷ m) (a, d) = elim (Bool-cases (j == id)) [
  | inl e ↦
      let same : j ≡ id = (eq_iff j id).0 e in
      let missing : lookup id m ≡ none = lookup_of_Absent id m (rw same at a) in
      ground (arith, lookup-prune_from limit id m d)
  | inr e ↦ ground (arith, lookup-prune_from limit id m d)
]

length-prune_from :
    (limit : ℤ) (m : Map NodeRecord)
    → (prune_from limit m).1 + length (prune_from limit m).0 ≡ length m
unfolding prune_from
length-prune_from limit [] = omega arith
length-prune_from limit ((j, rec) ∷ m) = ground (arith, length-prune_from limit m)

neg_mul : (i l : ℕ) → neg (pos i) *ℤ pos l ≡ neg (pos (i * l))
unfolding ◌*ℤ◌
neg_mul zero l = grind arith
neg_mul (suc i) l = grind arith

-- The eviction limit, where the window does not overflow an int64.
cutoff_lem :
    (now : ℤ) (r : Registry) (i l : ℕ)
    → r.heartbeat_interval ≡ pos i
    → r.missed_limit ≡ pos l
    → i < 2 ^ 63
    → i * l < 2 ^ 63
    → cutoff now r ≡ now +ℤ neg (pos (i * l))
unfolding cutoff mul64
cutoff_lem now r i l hi hl small fits =
    rw (hi, hl)
      (rw (wrap64_of_Int64 (neg (pos i)) (ground arith))
        (rw (neg_mul i l) (rw (wrap64_of_Int64 (neg (pos (i * l))) (ground arith)))))

-- `now - window` against the time of the last update, with subtraction out of the way.
within_iff :
    (now seen : ℤ) (w : ℕ) → (ltb_ℤ seen (now +ℤ neg (pos w)) ≡ false) ↔ (now ≤ℤ seen +ℤ pos w)
within_iff now seen w = ground (arith, +ℤ_parts now (neg (pos w)), +ℤ_parts seen (pos w))

fresh_only_iff :
    (now : ℤ) (w : ℕ) (rec : NodeRecord) (o : Option NodeRecord)
    → (fresh_only (now +ℤ neg (pos w)) o ≡ some rec)
      ↔ ((o ≡ some rec) × (now ≤ℤ rec.last_seen +ℤ pos w))
unfolding fresh_only
fresh_only_iff now w rec none = ground arith
fresh_only_iff now w rec (some found) =
    let window = within_iff now found.last_seen w in
    elim (Bool-cases (ltb_ℤ found.last_seen (now +ℤ neg (pos w)))) [
      | inl e ↦ rw e (
        λ h. cc,
        λ h.
            let same : found ≡ rec = cc (h.0) in
            absurd (false≢true (sym (window.1 (rw same h.1)) ∙ e)),
      )
      | inr e ↦ rw e (λ h. (h, let same : found ≡ rec = cc h in rw (← same) (window.0 e)), λ h. h.0)
    ]

-- Where interval times limit fits an int64, eviction keeps exactly the records that were updated
-- within that window before `now`, unchanged, and reports how many it removed.
pub prune_stale_window :
    (now : ℤ) (r : Registry) (i l : ℕ) (id : String) (rec : NodeRecord)
    → IsValid r
    → r.heartbeat_interval ≡ pos i
    → r.missed_limit ≡ pos l
    → i < 2 ^ 63
    → i * l < 2 ^ 63
    → ((lookup id (prune_stale now r).0.nodes ≡ some rec)
        ↔ ((lookup id r.nodes ≡ some rec) × (now ≤ℤ rec.last_seen +ℤ pos (i * l))))
      × ((prune_stale now r).1 + len (prune_stale now r).0 ≡ len r)
unfolding prune_stale len fresh_only
prune_stale_window now r i l id rec v hi hl small fits = (
  rw (lookup-prune_from (cutoff now r) id r.nodes v.distinct, cutoff_lem now r i l hi hl small fits)
      (fresh_only_iff now (i * l) rec (lookup id r.nodes)),
  length-prune_from (cutoff now r) r.nodes,
)
