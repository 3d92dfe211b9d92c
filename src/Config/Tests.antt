-- ===== src/Config/Tests.antt =====
-- A small configuration file, and the theorems about loading at it.
use ai_peer.Config.Validation.{IsUsable, load-IsUsable}
use ai_peer.Dataplane.Tables.{Result, ok, err}
use ai_peer.Config.{Config, apply_defaults, load, NodeX402}
use ai_peer.Base.{String, Bool, false, pos, ◌≡◌, not, ◌∷◌, if◌then◌else◌, refl, [], ◌==◌, string_eq}

abbrev no_price : NodeX402
no_price = record {
  enabled = false;
  facilitator_url = "";
  network = "";
  asset = "";
  pay_to = "";
  token_name = "";
  token_version = "";
  price_per_1k_atomic = pos 0;
  min_amount_atomic = pos 0;
  default_output_tokens = pos 0;
}

abbrev small : Config
small = record {
  name = "node-1";
  x402 = no_price;
  tcp_port = pos 4001;
  quic_port = pos 4002;
  bootstrap_peers = "/ip4/1.2.3.4" ∷ [];
  backend_type = "";
  backend_base_url = "";
  advertised = [];
  model_pricing = [];
  heartbeat_interval_sec = pos 0;
  first_token_sec = pos 0;
  total_request_sec = pos 5;
  gateway_listen = "";
  gateway_mode = "";
  control_api_token = "";
  auth_mode = "";
  telemetry = record {
    enabled = false;
    endpoint = "";
    signing_key_path = "";
    batch_max_events = pos 0;
    flush_interval_sec = pos 0;
  };
  redis_db = pos 0;
  postgres = record {
    dsn = "";
    max_open_conns = pos 0;
    max_idle_conns = pos 0;
    conn_max_lifetime_sec = pos 0;
  };
  gateway_model_pricing = [];
}

abbrev any_uri : String → Bool
any_uri uri = not (uri == "")

abbrev parse : String → Result Config
parse raw = if raw == "small" then ok small else err "parse error"

small_loads : load any_uri parse "small" ≡ ok (apply_defaults small)
unfolding load ai_peer.Config.validate ai_peer.Config.first_failure ai_peer.Config.all_checks
    apply_defaults ai_peer.Config.x402_checks ai_peer.Config.default_x402
    ai_peer.Config.network_checks ai_peer.Config.gateway_checks ai_peer.Config.telemetry_checks
    ai_peer.Config.default_telemetry ai_peer.Config.store_checks ai_peer.Config.validate_all_pricing
small_loads = refl

load-IsUsable_example :
    (read : Config) × (parse "small" ≡ ok read)
    × (apply_defaults small ≡ apply_defaults read)
    × IsUsable any_uri (apply_defaults small)
load-IsUsable_example = load-IsUsable any_uri parse "small" (apply_defaults small) small_loads
