-- ===== src/Gateway/Proxy.antt =====
-- pkg/gateway/openai_proxy.go: the proxy's settings, and the store that it calls, an interface of
-- pkg/gateway/control_api.go. `S` is the state behind the store.
use ai_peer.Gateway.Records.{
  ApiKeyPrincipal, ProviderRegisterRequest, ProviderHeartbeatRequest, ProviderWalletRotateRequest,
  UsageEvent, UsageListFilter,
}
use ai_peer.Dataplane.Tables.{Amount, Balance, Result}
use ai_peer.Dataplane.Prepaid.{ReserveResult}
use ai_peer.Gateway.Pricing.{TokenPricing, PaywallConfig}
use ai_peer.Base.{
  String, ℤ, ℕ, Bool, Option, List, if◌then◌else◌, trim_space, true, equal_fold, Map, pos, ltb_ℤ,
  ◌&&◌, to_lower, ◌==◌, string_eq, [], is_some, none,
}

pub record ControlStore (S : Type 0) : Type 0 where
  pub upsert_provider : ProviderRegisterRequest → S → S × Result (Unit {0})
  pub heartbeat_provider : ProviderHeartbeatRequest → S → S × Result (Unit {0})
  pub rotate_provider_wallet : ProviderWalletRotateRequest → S → S × Result (Unit {0})
  pub record_telemetry_batch : String → String → String → ℕ → S → S × Result Bool
  pub insert_usage_events : List UsageEvent → S → S × Result ℕ
  pub list_usage_events : UsageListFilter → S → Result (List UsageEvent)
  pub upsert_consumer_api_key : String → String → String → String → S → S × Result (Unit {0})
  pub revoke_consumer_api_key : String → String → String → S → S × Result Bool
  pub lookup_active_api_key : String → S → Result (Option ApiKeyPrincipal)
  pub lookup_consumer_api_key_hash : String → S → Result String
  pub reserve_prepaid : String → String → ℤ → S → S × Result ReserveResult
  pub finalize_prepaid : String → String → ℤ → Bool → S → S × Result ℤ
  pub credit_consumer_balance : String → Amount → String → S → S × Result (Unit {0})
  pub current_consumer_balance : String → S → Result ℤ
  pub record_x402_prepaid_topup : String → String → Amount → S → S × Result (Bool × Balance)

pub record Proxy (S : Type 0) : Type 0 where
  pub listen_addr : String
  pub local_backend_enabled : Bool
  pub gateway_id : String
  pub gateway_mode : String
  pub control_api_token : String
  pub auth_mode : String
  pub first_token_timeout : ℤ
  pub total_request_timeout : ℤ
  pub cors_allowed_origins : List String
  pub chat_paywall : Option PaywallConfig
  pub prepaid_topup_paywall : Option PaywallConfig
  pub prepaid_token_pricing : Option TokenPricing
  pub prepaid_model_pricing : Map TokenPricing
  pub control_store : Option (ControlStore S)

-- An error answer: the HTTP status and the message.
pub record Refusal : Type 0 where
  pub status : ℕ
  pub message : String

-- The mode in lower case without spaces around it, or the default when that is empty.
abbrev pub mode_or : String → String → String
mode_or default mode = let name = trim_space (to_lower mode) in if name == "" then default else name

module _ {S : Type 0} where
  abbrev pub new_proxy : String → Proxy S
  new_proxy listen_addr = record {
    listen_addr = listen_addr;
    local_backend_enabled = true;
    gateway_id = "";
    gateway_mode = "community";
    control_api_token = "";
    auth_mode = "off";
    first_token_timeout = pos 30_000_000_000;
    total_request_timeout = pos 120_000_000_000;
    cors_allowed_origins = [];
    chat_paywall = none;
    prepaid_topup_paywall = none;
    prepaid_token_pricing = none;
    prepaid_model_pricing = [];
    control_store = none;
  }

  unfoldable pub set_gateway_mode : String → Proxy S → Proxy S
  set_gateway_mode mode p = record p { gateway_mode = mode_or "community" mode }

  unfoldable pub set_auth_mode : String → Proxy S → Proxy S
  set_auth_mode mode p = record p { auth_mode = mode_or "off" mode }

  unfoldable pub set_gateway_id : String → Proxy S → Proxy S
  set_gateway_id id p = record p { gateway_id = trim_space id }

  unfoldable pub set_control_api_token : String → Proxy S → Proxy S
  set_control_api_token token p = record p { control_api_token = trim_space token }

  unfoldable pub set_timeouts : ℤ → ℤ → Proxy S → Proxy S
  set_timeouts first_token total p = record p {
    first_token_timeout = if ltb_ℤ (pos 0) first_token then first_token else p.first_token_timeout;
    total_request_timeout = if ltb_ℤ (pos 0) total then total else p.total_request_timeout;
  }

  unfoldable pub set_local_backend_enabled : Bool → Proxy S → Proxy S
  set_local_backend_enabled enabled p = record p { local_backend_enabled = enabled }

  unfoldable pub set_cors_allowed_origins : List String → Proxy S → Proxy S
  set_cors_allowed_origins origins p = record p { cors_allowed_origins = origins }

  unfoldable pub set_control_store : Option (ControlStore S) → Proxy S → Proxy S
  set_control_store store p = record p { control_store = store }

  unfoldable pub set_x402_chat_paywall : Option PaywallConfig → Proxy S → Proxy S
  set_x402_chat_paywall cfg p = record p { chat_paywall = cfg }

  unfoldable pub set_x402_prepaid_topup_paywall : Option PaywallConfig → Proxy S → Proxy S
  set_x402_prepaid_topup_paywall cfg p = record p { prepaid_topup_paywall = cfg }

  unfoldable pub set_prepaid_pricing : Option TokenPricing → Map TokenPricing → Proxy S → Proxy S
  set_prepaid_pricing token models p = record p {
    prepaid_token_pricing = token;
    prepaid_model_pricing = models;
  }

  unfoldable pub is_official_prepaid_only : Proxy S → Bool
  is_official_prepaid_only p =
      equal_fold (trim_space p.gateway_mode) "official" && is_some p.control_store

  unfoldable pub official_gateway_id : Proxy S → String
  official_gateway_id p =
      let id = trim_space p.gateway_id in if id == "" then trim_space p.listen_addr else id
