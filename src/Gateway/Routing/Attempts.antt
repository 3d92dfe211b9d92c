-- ===== src/Gateway/Routing/Attempts.antt =====
-- How many nodes are asked, and which.
use ai_peer.Gateway.Pricing.{at_least}
use ai_peer.Gateway.Routing.{
  Reply, answered, Routed, wants_payment, writes_payment, exhausted, RemoteChatResponse, refused,
  served, RemotePaymentRequiredError, payment_sent,
}
use ai_peer.Registry.{NodeRecord}
use ai_peer.Base.{String, List, map, Bool, ℕ, [], ◌≡◌, ◌∷◌, false, true, suc, pos}

abbrev pub ids : List NodeRecord → List String
ids nodes = map (λ n. n.node_id) nodes

module _ (call : String → Reply) (decodes : String → Bool) where
  -- The node gave neither an answer nor a payment request that the client can read.
  abbrev pub GaveUp : Reply → Type 0
  GaveUp (answered resp) = ⊥
  GaveUp (wants_payment e) = writes_payment decodes e ≡ false
  GaveUp (refused reason) = Unit

  -- With `n` attempts left: the nodes are asked in their order, each after the one before gave up,
  -- until one ends the request or the nodes or the attempts run out.
  pub data Ended : ℕ → List String → List String × Routed → Type 0 where
    no_nodes : (n : ℕ) (failure : String) → Ended n [] ([], exhausted failure)
    no_attempts : (names : List String) (failure : String) → Ended 0 names ([], exhausted failure)
    by_answer :
        (n : ℕ) (name : String) (names : List String) (resp : RemoteChatResponse)
        → call name ≡ answered resp
        → Ended
            (suc n)
            (name ∷ names)
            (name ∷ [], served name resp (at_least (pos 0) resp.completion_tokens))
    by_payment :
        (n : ℕ) (name : String) (names : List String) (e : RemotePaymentRequiredError)
        → call name ≡ wants_payment e
        → writes_payment decodes e ≡ true
        → Ended (suc n) (name ∷ names) (name ∷ [], payment_sent name e)
    after :
        (n : ℕ) (name : String) (names asked : List String) (end : Routed)
        → GaveUp (call name)
        → Ended n names (asked, end)
        → Ended (suc n) (name ∷ names) (name ∷ asked, end)
