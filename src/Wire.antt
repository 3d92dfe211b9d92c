-- ===== src/Wire.antt =====
-- pkg/apiv1/messages.go: the payloads that nodes and gateways exchange. A message pointer is an
-- `Option`, and each getter returns the zero value of its field on nil.
use ai_peer.Base.{ℤ, pos, String, Bool, false, Option, none, some, List, [], Map}

-- A finite float64, counted in units of 2 ^ -1074, of which every finite float64 is a whole multiple.
-- The source only copies and compares the values of this type.
abbrev pub Float64 : Type 0
Float64 = ℤ

pub record NodeAnnounce : Type 0 where
  pub node_id : String
  pub models : List String
  pub hardware_summary : String
  pub location_hint : String
  pub pricing_hint : String
  pub timestamp_ms : ℤ

pub record HealthUpdate : Type 0 where
  pub node_id : String
  pub uptime_sec : ℤ
  pub load : Float64
  pub latency_ms : ℤ
  pub timestamp_ms : ℤ

pub record ChatMessage : Type 0 where
  pub role : String
  pub content : String

pub record InferenceRequest : Type 0 where
  pub request_id : String
  pub model : String
  pub messages : List (Option ChatMessage)
  pub params : Map String

pub record InferenceResponse : Type 0 where
  pub request_id : String
  pub content : String
  pub tokens_used : ℤ
  pub latency_ms : ℤ
  pub ok : Bool
  pub error_message : String

pub record InferenceStreamChunk : Type 0 where
  pub request_id : String
  pub model : String
  pub content : String
  pub tokens_used : ℤ
  pub done : Bool
  pub ok : Bool
  pub error_message : String

-- A field of a message that may be nil.
abbrev pub get : {M V : Type 0} → V → (M → V) → Option M → V
get zero_value field none = zero_value
get zero_value field (some m) = field m

abbrev pub announce_node_id : Option NodeAnnounce → String
announce_node_id = get "" (λ m. m.node_id)

abbrev pub announce_models : Option NodeAnnounce → List String
announce_models = get [] (λ m. m.models)

abbrev pub announce_hardware_summary : Option NodeAnnounce → String
announce_hardware_summary = get "" (λ m. m.hardware_summary)

abbrev pub announce_location_hint : Option NodeAnnounce → String
announce_location_hint = get "" (λ m. m.location_hint)

abbrev pub announce_pricing_hint : Option NodeAnnounce → String
announce_pricing_hint = get "" (λ m. m.pricing_hint)

abbrev pub announce_timestamp_ms : Option NodeAnnounce → ℤ
announce_timestamp_ms = get (pos 0) (λ m. m.timestamp_ms)

abbrev pub health_node_id : Option HealthUpdate → String
health_node_id = get "" (λ m. m.node_id)

abbrev pub health_uptime_sec : Option HealthUpdate → ℤ
health_uptime_sec = get (pos 0) (λ m. m.uptime_sec)

abbrev pub health_load : Option HealthUpdate → Float64
health_load = get (pos 0) (λ m. m.load)

abbrev pub health_latency_ms : Option HealthUpdate → ℤ
health_latency_ms = get (pos 0) (λ m. m.latency_ms)

abbrev pub health_timestamp_ms : Option HealthUpdate → ℤ
health_timestamp_ms = get (pos 0) (λ m. m.timestamp_ms)

abbrev pub message_role : Option ChatMessage → String
message_role = get "" (λ m. m.role)

abbrev pub message_content : Option ChatMessage → String
message_content = get "" (λ m. m.content)

abbrev pub request_request_id : Option InferenceRequest → String
request_request_id = get "" (λ m. m.request_id)

abbrev pub request_model : Option InferenceRequest → String
request_model = get "" (λ m. m.model)

abbrev pub request_messages : Option InferenceRequest → List (Option ChatMessage)
request_messages = get [] (λ m. m.messages)

abbrev pub request_params : Option InferenceRequest → Map String
request_params = get [] (λ m. m.params)

abbrev pub response_request_id : Option InferenceResponse → String
response_request_id = get "" (λ m. m.request_id)

abbrev pub response_content : Option InferenceResponse → String
response_content = get "" (λ m. m.content)

abbrev pub response_tokens_used : Option InferenceResponse → ℤ
response_tokens_used = get (pos 0) (λ m. m.tokens_used)

abbrev pub response_latency_ms : Option InferenceResponse → ℤ
response_latency_ms = get (pos 0) (λ m. m.latency_ms)

abbrev pub response_ok : Option InferenceResponse → Bool
response_ok = get false (λ m. m.ok)

abbrev pub response_error_message : Option InferenceResponse → String
response_error_message = get "" (λ m. m.error_message)

abbrev pub chunk_request_id : Option InferenceStreamChunk → String
chunk_request_id = get "" (λ m. m.request_id)

abbrev pub chunk_model : Option InferenceStreamChunk → String
chunk_model = get "" (λ m. m.model)

abbrev pub chunk_content : Option InferenceStreamChunk → String
chunk_content = get "" (λ m. m.content)

abbrev pub chunk_tokens_used : Option InferenceStreamChunk → ℤ
chunk_tokens_used = get (pos 0) (λ m. m.tokens_used)

abbrev pub chunk_done : Option InferenceStreamChunk → Bool
chunk_done = get false (λ m. m.done)

abbrev pub chunk_ok : Option InferenceStreamChunk → Bool
chunk_ok = get false (λ m. m.ok)

abbrev pub chunk_error_message : Option InferenceStreamChunk → String
chunk_error_message = get "" (λ m. m.error_message)
