-- ===== src/Config.antt =====
-- pkg/config/config.go: the settings of a node and a gateway, their defaults and their validation.
-- `is_uri` is `url.ParseRequestURI`, `parse` the YAML decoder. An int has 64 bits; only comparisons
-- are made.
pub mod Validation
mod Tests
use ai_peer.Registry.{is_empty}
use ai_peer.Dataplane.Tables.{Result, err, ok}
use ai_peer.Base.{
  ℤ, Option, Map, Bool, String, List, pos, ltb_ℤ, ◌==◌, ◌∷◌, none, some, leb_ℤ, if◌then◌else◌,
  string_eq, int_eq, ◌&&◌, ◌||◌, not, [], ◌++◌,
}

pub record ModelPricing : Type 0 where
  pub price_per_1k_atomic : ℤ
  pub min_amount_atomic : ℤ
  pub max_amount_atomic : ℤ
  pub default_output_tokens : ℤ

pub record NodeX402 : Type 0 where
  pub enabled : Bool
  pub facilitator_url : String
  pub network : String
  pub asset : String
  pub pay_to : String
  pub token_name : String
  pub token_version : String
  pub price_per_1k_atomic : ℤ
  pub min_amount_atomic : ℤ
  pub default_output_tokens : ℤ

pub record Telemetry : Type 0 where
  pub enabled : Bool
  pub endpoint : String
  pub signing_key_path : String
  pub batch_max_events : ℤ
  pub flush_interval_sec : ℤ

pub record Postgres : Type 0 where
  pub dsn : String
  pub max_open_conns : ℤ
  pub max_idle_conns : ℤ
  pub conn_max_lifetime_sec : ℤ

-- The settings that defaults or validation read; `node.name` is `name`, and so on.
pub record Config : Type 0 where
  pub name : String
  pub x402 : NodeX402
  pub tcp_port : ℤ
  pub quic_port : ℤ
  pub bootstrap_peers : List String
  pub backend_type : String
  pub backend_base_url : String
  pub advertised : List String
  pub model_pricing : Map ModelPricing
  pub heartbeat_interval_sec : ℤ
  pub first_token_sec : ℤ
  pub total_request_sec : ℤ
  pub gateway_listen : String
  pub gateway_mode : String
  pub control_api_token : String
  pub auth_mode : String
  pub telemetry : Telemetry
  pub redis_db : ℤ
  pub postgres : Postgres
  pub gateway_model_pricing : Map ModelPricing

-- A default stands in for a zero or an empty text.
abbrev pub or_default : ℤ → ℤ → ℤ
or_default default n = if n == pos 0 then default else n

abbrev pub or_default_text : String → String → String
or_default_text default s = if s == "" then default else s

unfoldable pub default_x402 : NodeX402 → NodeX402
default_x402 x = record x {
  network = or_default_text "eip155:84532" x.network;
  asset = or_default_text "0x036CbD53842c5426634e7929541eC2318f3dCF7e" x.asset;
  token_name = or_default_text "USDC" x.token_name;
  token_version = or_default_text "2" x.token_version;
  default_output_tokens = or_default (pos 256) x.default_output_tokens;
}

unfoldable pub default_telemetry : Telemetry → Telemetry
default_telemetry x = record x {
  batch_max_events = or_default (pos 200) x.batch_max_events;
  flush_interval_sec = or_default (pos 60) x.flush_interval_sec;
}

unfoldable pub apply_defaults : Config → Config
apply_defaults c = record c {
  heartbeat_interval_sec = or_default (pos 30) c.heartbeat_interval_sec;
  first_token_sec = or_default (pos 30) c.first_token_sec;
  total_request_sec = or_default (pos 120) c.total_request_sec;
  gateway_listen = or_default_text "127.0.0.1:8080" c.gateway_listen;
  gateway_mode = or_default_text "community" c.gateway_mode;
  auth_mode = or_default_text "off" c.auth_mode;
  telemetry = default_telemetry c.telemetry;
  backend_type = or_default_text "ollama" c.backend_type;
  backend_base_url = or_default_text "http://127.0.0.1:11434" c.backend_base_url;
  x402 = default_x402 c.x402;
}

-- Each check is the condition of an early return and its message.
abbrev pub Check : Type 0
Check = Bool × String

-- The first check that fails.
unfoldable pub first_failure : List Check → Option String
first_failure [] = none
first_failure ((wrong, message) ∷ checks) =
    let rest = first_failure checks in if wrong then some message else rest

abbrev pub negative : ℤ → Bool
negative n = ltb_ℤ n (pos 0)

abbrev pub bad_port : ℤ → Bool
bad_port p = ltb_ℤ p (pos 1) || ltb_ℤ (pos 65535) p

unfoldable pub pricing_checks : ModelPricing → List Check
pricing_checks m =
    (negative m.price_per_1k_atomic, "price_per_1k_atomic must be >= 0")
    ∷ (negative m.min_amount_atomic, "min_amount_atomic must be >= 0")
    ∷ (negative m.max_amount_atomic, "max_amount_atomic must be >= 0")
    ∷ (negative m.default_output_tokens, "default_output_tokens must be >= 0")
    ∷ (
      ltb_ℤ (pos 0) m.max_amount_atomic
          && ltb_ℤ (pos 0) m.min_amount_atomic
          && ltb_ℤ m.max_amount_atomic m.min_amount_atomic,
      "max_amount_atomic must be >= min_amount_atomic",
    )
    ∷ []

-- The messages are those of the source without the path and the model.
unfoldable pub validate_model_pricing : ModelPricing → Option String
validate_model_pricing m = first_failure (pricing_checks m)

-- The loop over the prices of the models, whose order only picks the message.
unfoldable pub validate_all_pricing : Map ModelPricing → Option String
validate_all_pricing [] = none
validate_all_pricing ((model, m) ∷ rest) =
    let later = validate_all_pricing rest in
    elim (validate_model_pricing m) [ none ↦ later | some message ↦ some message ]

unfoldable pub x402_checks : NodeX402 → List Check
x402_checks x =
    (negative x.price_per_1k_atomic, "node.x402.price_per_1k_atomic must be >= 0")
    ∷ (negative x.min_amount_atomic, "node.x402.min_amount_atomic must be >= 0")
    ∷ (negative x.default_output_tokens, "node.x402.default_output_tokens must be >= 0")
    ∷ (x.enabled && x.pay_to == "", "node.x402.enabled requires node.x402.pay_to")
    ∷ (
      x.enabled && leb_ℤ x.price_per_1k_atomic (pos 0),
      "node.x402.enabled requires node.x402.price_per_1k_atomic > 0",
    )
    ∷ []

abbrev pub known_mode : String → Bool
known_mode mode = mode == "official" || mode == "community"

abbrev pub known_auth_mode : String → Bool
known_auth_mode mode = mode == "off" || mode == "optional" || mode == "required"

unfoldable pub store_checks : Config → List Check
store_checks c =
    (negative c.redis_db, "gateway.redis.db must be >= 0")
    ∷ (negative c.postgres.max_open_conns, "gateway.postgres.max_open_conns must be >= 0")
    ∷ (negative c.postgres.max_idle_conns, "gateway.postgres.max_idle_conns must be >= 0")
    ∷ (
      negative c.postgres.conn_max_lifetime_sec,
      "gateway.postgres.conn_max_lifetime_sec must be >= 0",
    )
    ∷ (
      c.gateway_mode == "official" && c.control_api_token == "",
      "gateway.mode=official requires gateway.control_api_token",
    )
    ∷ (
      c.gateway_mode == "official" && c.postgres.dsn == "",
      "gateway.mode=official requires gateway.postgres.dsn",
    )
    ∷ []

abbrev pub or_else : Option String → Option String → Option String
or_else none later = later
or_else (some message) later = some message

module _ (is_uri : String → Bool) where
  unfoldable pub network_checks : Config → List Check
  network_checks c =
      (bad_port c.tcp_port, "listen.tcp_port must be in [1,65535]")
      ∷ (bad_port c.quic_port, "listen.quic_port must be in [1,65535]")
      ∷ (is_empty c.bootstrap_peers, "network.bootstrap_peers is required")
      ∷ (not (c.backend_type == "ollama"), "backend.type must be \"ollama\" for v0.1")
      ∷ (not (is_uri c.backend_base_url), "backend.base_url is invalid")
      ∷ (leb_ℤ c.heartbeat_interval_sec (pos 0), "heartbeat.interval_sec must be > 0")
      ∷ (leb_ℤ c.first_token_sec (pos 0), "timeouts.first_token_sec must be > 0")
      ∷ (leb_ℤ c.total_request_sec (pos 0), "timeouts.total_request_sec must be > 0")
      ∷ []

  unfoldable pub telemetry_checks : Telemetry → List Check
  telemetry_checks x =
      (leb_ℤ x.batch_max_events (pos 0), "gateway.telemetry.batch_max_events must be > 0")
      ∷ (leb_ℤ x.flush_interval_sec (pos 0), "gateway.telemetry.flush_interval_sec must be > 0")
      ∷ (
        x.enabled && x.endpoint == "",
        "gateway.telemetry.enabled requires gateway.telemetry.endpoint",
      )
      ∷ (x.enabled && not (is_uri x.endpoint), "gateway.telemetry.endpoint is invalid")
      ∷ (
        x.enabled && x.signing_key_path == "",
        "gateway.telemetry.enabled requires gateway.telemetry.signing_key_path",
      )
      ∷ []

  unfoldable pub gateway_checks : Config → List Check
  gateway_checks c =
      (c.gateway_listen == "", "gateway.listen must not be empty")
      ∷ (not (known_mode c.gateway_mode), "gateway.mode must be one of: official, community")
      ∷ (
        not (known_auth_mode c.auth_mode),
        "gateway.auth_mode must be one of: off, optional, required",
      )
      ∷ telemetry_checks c.telemetry

  unfoldable pub all_checks : Config → List Check
  all_checks c =
      (c.name == "", "node.name is required") ∷ x402_checks c.x402
      ++ network_checks c
      ++ gateway_checks c
      ++ store_checks c

  -- None, or the error.
  unfoldable pub validate : Config → Option String
  validate c = or_else (first_failure (all_checks c)) (
      or_else (validate_all_pricing c.model_pricing) (validate_all_pricing c.gateway_model_pricing))

  -- `Load` of a file's contents.
  unfoldable pub load : (String → Result Config) → String → Result Config
  load parse raw = elim (parse raw) [
    | err e ↦ err e
    | ok read ↦
        let c = apply_defaults read in
        elim (validate c) [ none ↦ ok c | some message ↦ err message ]
  ]
