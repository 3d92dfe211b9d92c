-- ===== src/Gateway/Messages.antt =====
-- What the chat handlers of pkg/gateway/openai_proxy.go exchange with the local backend and what they
-- answer. The ids and times in an answer are left out.
use ai_peer.Base.{String, Bool, ℤ, ℕ, pos, add64, Option, List, if◌then◌else◌, ◌==◌, string_eq}
use ai_peer.Gateway.Pricing.{ChatRequest, ChatMessage}
use ai_peer.Gateway.Routing.{RemoteChatResponse, RemotePaymentRequiredError}
use ai_peer.Gateway.Paywall.{Demand}
use ai_peer.Gateway.Answers.{Answer}

pub record OllamaChatBody : Type 0 where
  pub model : String
  pub messages : List ChatMessage
  pub stream : Bool
  pub temperature : Option ℤ

unfoldable pub to_ollama_chat_body : ChatRequest → OllamaChatBody
to_ollama_chat_body req = record {
  model = req.model;
  messages = req.messages;
  stream = req.stream;
  temperature = req.temperature;
}

pub record OllamaChatResponse : Type 0 where
  pub model : String
  pub content : String
  pub prompt_eval_count : ℤ
  pub eval_count : ℤ

-- What the local backend does: it gives an answer, or the request is not made or fails, with the
-- status and the message that the client is given.
pub data Backend : Type 0 where
  chatted : OllamaChatResponse → Backend
  failed : ℕ → String → Backend

pub record Completion : Type 0 where
  pub model : String
  pub x_request_id : String
  pub content : String
  pub prompt_tokens : ℤ
  pub completion_tokens : ℤ
  pub total_tokens : ℤ

abbrev pub named_or : String → String → String
named_or requested given = if requested == "" then given else requested

unfoldable pub completion_from_ollama : OllamaChatResponse → String → String → Completion
completion_from_ollama ollama requested_model request_id = record {
  model = named_or requested_model ollama.model;
  x_request_id = request_id;
  content = ollama.content;
  prompt_tokens = ollama.prompt_eval_count;
  completion_tokens = ollama.eval_count;
  total_tokens = add64 ollama.prompt_eval_count ollama.eval_count;
}

unfoldable pub completion_from_remote : RemoteChatResponse → String → String → Completion
completion_from_remote remote requested_model request_id = record {
  model = named_or requested_model remote.model;
  x_request_id = request_id;
  content = remote.content;
  prompt_tokens = pos 0;
  completion_tokens = remote.completion_tokens;
  total_tokens = remote.completion_tokens;
}

-- An event of a stream: whether it names the assistant's role, the content that it adds, if any, and
-- whether it finishes.
pub record StreamEvent : Type 0 where
  pub model : String
  pub role : Bool
  pub content : String
  pub finished : Bool

-- What the client gets: an error, a demand for payment, a node's demand passed on, the completion, or
-- a stream of events and whether its end is marked.
pub data ChatReply : Type 0 where
  event_stream : List StreamEvent → Bool → ChatReply
  error_reply : Answer → ChatReply
  demand_reply : Demand → ChatReply
  forwarded : RemotePaymentRequiredError → ChatReply
  completed : Completion → ChatReply
