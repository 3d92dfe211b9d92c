-- ===== src/Gateway/Records.antt =====
-- pkg/gateway/control_api.go: the records that the control API and the store exchange. A provider's
-- metadata, a map of any JSON values that is only carried along, is a map of texts. Times are
-- nanoseconds; Go's zero time is `none`.
use ai_peer.Base.{String, Map, ℤ, Option}

pub record ProviderRegisterRequest : Type 0 where
  pub provider_id : String
  pub peer_id : String
  pub status : String
  pub wallet_address : String
  pub metadata : Map String

pub record ProviderHeartbeatRequest : Type 0 where
  pub provider_id : String
  pub peer_id : String
  pub status : String

pub record ProviderWalletRotateRequest : Type 0 where
  pub provider_id : String
  pub new_wallet : String
  pub rotation_proof : String
  pub requested_by_peer : String

pub record UsageEvent : Type 0 where
  pub request_id : String
  pub gateway_id : String
  pub gateway_type : String
  pub consumer_id : String
  pub provider_id : String
  pub model : String
  pub tokens_in : ℤ
  pub tokens_out : ℤ
  pub cost_usdc : ℤ
  pub latency_ms : ℤ
  pub status : String
  pub payment_method : String
  pub created_at : Option ℤ

pub record UsageListFilter : Type 0 where
  pub consumer_id : String
  pub provider_id : String
  pub limit : ℤ

pub record ApiKeyPrincipal : Type 0 where
  pub consumer_id : String
  pub consumer_type : String
  pub wallet_address : String
