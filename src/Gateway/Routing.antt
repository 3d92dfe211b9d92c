-- ===== src/Gateway/Routing.antt =====
-- The loop of `handleChatCompletions` in pkg/gateway/openai_proxy.go that asks one remote node after
-- another. `call` gives each node's reply to the request, and `decodes` tells which
-- PAYMENT-REQUIRED headers are well formed.
pub mod Attempts
-- The constant `maxRemoteRetries`.
use ai_peer.Gateway.Pricing.{at_least}
use ai_peer.Registry.{NodeRecord}
use ai_peer.Base.{
  ℕ, String, ℤ, Bool, if◌then◌else◌, trim_space, List, not, ◌==◌, string_eq, ◌∷◌, ◌&&◌, suc, ltb,
  [], pos,
}

abbrev pub max_remote_retries : ℕ
max_remote_retries = 2

pub record RemoteChatResponse : Type 0 where
  pub model : String
  pub content : String
  pub completion_tokens : ℤ

pub record RemotePaymentRequiredError : Type 0 where
  pub message : String
  pub payment_required_header : String
  pub payment_response_header : String

-- The method `Error`.
unfoldable pub error_text : RemotePaymentRequiredError → String
error_text e = if trim_space e.message == "" then "remote payment required" else e.message

-- What a node answers. An error that asks for payment is that error itself, not a wrapped one.
pub data Reply : Type 0 where
  answered : RemoteChatResponse → Reply
  wants_payment : RemotePaymentRequiredError → Reply
  refused : String → Reply

-- How the loop ends: with a node's answer and the completion tokens to bill, with a node's payment
-- request handed to the client, or with the last failure.
pub data Routed : Type 0 where
  served : String → RemoteChatResponse → ℤ → Routed
  payment_sent : String → RemotePaymentRequiredError → Routed
  exhausted : String → Routed

-- `writeRemotePaymentRequired`: tells whether an answer was written.
abbrev pub writes_payment : (String → Bool) → RemotePaymentRequiredError → Bool
writes_payment decodes e =
    not (trim_space e.payment_required_header == "") && decodes e.payment_required_header

module _ (call : String → Reply) (decodes : String → Bool) where
  -- The nodes that are asked, in order, and the end. `i` counts the nodes before.
  unfoldable pub ask_nodes : ℕ → String → List NodeRecord → List String × Routed
  ask_nodes i failure [] = ([], exhausted failure)
  ask_nodes i failure (node ∷ nodes) =
      let id = node.node_id in
      let next : String → List String × Routed =
        λ reason. let (asked, end) = ask_nodes (suc i) reason nodes in (id ∷ asked, end) in
      if ltb max_remote_retries i then ([], exhausted failure) else elim (call id) [
        | answered resp ↦ (id ∷ [], served id resp (at_least (pos 0) resp.completion_tokens))
        | wants_payment e ↦
            if writes_payment decodes e then (id ∷ [], payment_sent id e) else next (error_text e)
        | refused reason ↦ next reason
      ]

  unfoldable pub ask_remote : List NodeRecord → List String × Routed
  ask_remote nodes = ask_nodes 0 "" nodes
