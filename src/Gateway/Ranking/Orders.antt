-- ===== src/Gateway/Ranking/Orders.antt =====
-- The comparison functions are strict orders.
use ai_peer.Base.{
  Bool, true, false, ℤ, ltb_ℤ, ◌≡◌, ◌⊎◌, arith, if◌then◌else◌, ◌==◌, int_eq, ℤ_beq_iff, not, ◌&&◌,
  IsStrictOrder,
}
use ai_peer.Registry.{by_node_id}
use ai_peer.Registry.Listing.{by_node_id-IsStrictOrder}
use ai_peer.Gateway.Ranking.{
  same, less_first, more_first, having_first, having_less, having_more, ranks_before, pings_before,
  Candidate, has_ttft, has_decode,
}

-- `down` turns the order of the keys round.
abbrev ahead : Bool → ℤ → ℤ → Bool
ahead down x y = if down then ltb_ℤ y x else ltb_ℤ x y

abbrev pick : Bool → ℤ → ℤ → Bool → Bool
pick down x y rest = if not (x == y) then ahead down x y else rest

pick_irrefl : (down : Bool) (x : ℤ) → pick down x x false ≡ false
pick_irrefl down x = ground (arith, ℤ_beq_iff x x)

pick_trans :
    (down : Bool) (x y z : ℤ) (p q r : Bool)
    → (p ≡ true → q ≡ true → r ≡ true)
    → pick down x y p ≡ true
    → pick down y z q ≡ true
    → pick down x z r ≡ true
pick_trans down x y z p q r k h h' = ground (arith, ℤ_beq_iff x y, ℤ_beq_iff y z, ℤ_beq_iff x z)

pick_cotrans :
    (down : Bool) (x y z : ℤ) (p q r : Bool)
    → (r ≡ true → (p ≡ true) ⊎ (q ≡ true))
    → pick down x z r ≡ true
    → (pick down x y p ≡ true) ⊎ (pick down y z q ≡ true)
pick_cotrans down x y z p q r k h = ground (arith, ℤ_beq_iff x y, ℤ_beq_iff y z, ℤ_beq_iff x z)

abbrev prefer : Bool → Bool → Bool → ℤ → ℤ → Bool → Bool
prefer down p q x y rest =
    if not (same p q) then p else if p && not (x == y) then ahead down x y else rest

prefer_irrefl : (down p : Bool) (x : ℤ) → prefer down p p x x false ≡ false
prefer_irrefl down p x = ground (arith, ℤ_beq_iff x x)

prefer_trans :
    (down p q r : Bool) (x y z : ℤ) (l m n : Bool)
    → (l ≡ true → m ≡ true → n ≡ true)
    → prefer down p q x y l ≡ true
    → prefer down q r y z m ≡ true
    → prefer down p r x z n ≡ true
prefer_trans down p q r x y z l m n k h h' =
    ground (arith, ℤ_beq_iff x y, ℤ_beq_iff y z, ℤ_beq_iff x z)

prefer_cotrans :
    (down p q r : Bool) (x y z : ℤ) (l m n : Bool)
    → (n ≡ true → (l ≡ true) ⊎ (m ≡ true))
    → prefer down p r x z n ≡ true
    → (prefer down p q x y l ≡ true) ⊎ (prefer down q r y z m ≡ true)
prefer_cotrans down p q r x y z l m n k h =
    ground (arith, ℤ_beq_iff x y, ℤ_beq_iff y z, ℤ_beq_iff x z)

module _ {A : Type 0} {rest : A → A → Bool} (o : IsStrictOrder rest) where
  less_first-IsStrictOrder : (key : A → ℤ) → IsStrictOrder (less_first key rest)
  less_first-IsStrictOrder key = record {
    irrefl = λ a. rw (o.irrefl a) (pick_irrefl false (key a));
    trans = λ a b c h k.
        pick_trans false (key a) (key b) (key c) (rest a b) (rest b c) (rest a c) (o.trans a b c) h
          k;
    cotrans = λ a b c h.
        pick_cotrans false (key a) (key b) (key c) (rest a b) (rest b c) (rest a c)
          (o.cotrans a b c) h;
  }

  more_first-IsStrictOrder : (key : A → ℤ) → IsStrictOrder (more_first key rest)
  more_first-IsStrictOrder key = record {
    irrefl = λ a. rw (o.irrefl a) (pick_irrefl true (key a));
    trans = λ a b c h k.
        pick_trans true (key a) (key b) (key c) (rest a b) (rest b c) (rest a c) (o.trans a b c) h
          k;
    cotrans = λ a b c h.
        pick_cotrans true (key a) (key b) (key c) (rest a b) (rest b c) (rest a c) (o.cotrans a b c)
          h;
  }

  having_first-IsStrictOrder : (has : A → Bool) → IsStrictOrder (having_first has rest)
  having_first-IsStrictOrder has = record {
    irrefl = λ a. ground (arith, o.irrefl a);
    trans = λ a b c h k. ground (arith, o.trans a b c);
    cotrans = λ a b c h. ground (arith, o.cotrans a b c);
  }

  having_less-IsStrictOrder :
      (has : A → Bool) (key : A → ℤ) → IsStrictOrder (having_less has key rest)
  having_less-IsStrictOrder has key = record {
    irrefl = λ a. rw (o.irrefl a) (prefer_irrefl false (has a) (key a));
    trans = λ a b c h k.
        prefer_trans false (has a) (has b) (has c) (key a) (key b) (key c) (rest a b) (rest b c)
          (rest a c) (o.trans a b c) h k;
    cotrans = λ a b c h.
        prefer_cotrans false (has a) (has b) (has c) (key a) (key b) (key c) (rest a b) (rest b c)
          (rest a c) (o.cotrans a b c) h;
  }

  having_more-IsStrictOrder :
      (has : A → Bool) (key : A → ℤ) → IsStrictOrder (having_more has key rest)
  having_more-IsStrictOrder has key = record {
    irrefl = λ a. rw (o.irrefl a) (prefer_irrefl true (has a) (key a));
    trans = λ a b c h k.
        prefer_trans true (has a) (has b) (has c) (key a) (key b) (key c) (rest a b) (rest b c)
          (rest a c) (o.trans a b c) h k;
    cotrans = λ a b c h.
        prefer_cotrans true (has a) (has b) (has c) (key a) (key b) (key c) (rest a b) (rest b c)
          (rest a c) (o.cotrans a b c) h;
  }

pub ranks_before-IsStrictOrder : IsStrictOrder ranks_before
unfolding ranks_before
ranks_before-IsStrictOrder =
    less_first-IsStrictOrder
      (having_less-IsStrictOrder
        (having_more-IsStrictOrder
          (less_first-IsStrictOrder
            (more_first-IsStrictOrder
              (more_first-IsStrictOrder by_node_id-IsStrictOrder (λ n. n.last_seen))
              (λ n. n.uptime_sec))
            (λ n. n.latency_ms))
          has_decode (λ n. n.decode_tps))
        has_ttft (λ n. n.ttft_ms))
      (λ n. n.load)

by_rec-IsStrictOrder : IsStrictOrder (λ (a b : Candidate). by_node_id a.rec b.rec)
by_rec-IsStrictOrder = record {
  irrefl = λ a. by_node_id-IsStrictOrder.irrefl a.rec;
  trans = λ a b c. by_node_id-IsStrictOrder.trans a.rec b.rec c.rec;
  cotrans = λ a b c. by_node_id-IsStrictOrder.cotrans a.rec b.rec c.rec;
}

pub pings_before-IsStrictOrder : IsStrictOrder pings_before
unfolding pings_before
pings_before-IsStrictOrder =
    less_first-IsStrictOrder
      (having_first-IsStrictOrder (less_first-IsStrictOrder by_rec-IsStrictOrder (λ c. c.fallback))
        (λ c. c.has_ping))
      (λ c. c.ping_ms)
