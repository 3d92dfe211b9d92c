-- ===== src/Config/Validation.antt =====
-- What a loaded configuration is known to satisfy.
-- Prices that are sound for a model.
use ai_peer.Dataplane.Tables.{Result, ok, err}
use text.Mathlib.TextEquality.{eq_iff}
use ai_peer.Registry.{is_empty}
use ai_peer.Base.{
  String, List, Map, Bool, All, ◌≡◌, pos, ◌++◌, ◌≤ℤ◌, false, none, arith, Every, ◌≢◌, ◌∷◌, ◌<ℤ◌,
  Option-cases, [], true, refl, inl, inr, ◌⊎◌, Bool-cases, ◌==◌, string_eq, some, ℤ,
}
use ai_peer.Config.{
  first_failure, ModelPricing, validate_model_pricing, validate_all_pricing, Check, pricing_checks,
  Config, validate, x402_checks, all_checks, NodeX402, network_checks, gateway_checks, store_checks,
  load, telemetry_checks, apply_defaults, default_x402, default_telemetry, or_default_text,
  Telemetry, or_default,
}

pub record IsPrice (m : ModelPricing) : Type 0 where
  pub price_nonneg : pos 0 ≤ℤ m.price_per_1k_atomic
  pub min_nonneg : pos 0 ≤ℤ m.min_amount_atomic
  pub max_nonneg : pos 0 ≤ℤ m.max_amount_atomic
  pub output_nonneg : pos 0 ≤ℤ m.default_output_tokens
  pub ordered : pos 0 <ℤ m.max_amount_atomic → m.min_amount_atomic ≤ℤ m.max_amount_atomic

pub record IsUsable (is_uri : String → Bool) (c : Config) : Type 0 where
  pub named : c.name ≢ ""
  pub paid : c.x402.enabled ≡ true → (c.x402.pay_to ≢ "") × (pos 0 <ℤ c.x402.price_per_1k_atomic)
  pub tcp : (pos 1 ≤ℤ c.tcp_port) × (c.tcp_port ≤ℤ pos 65535)
  pub quic : (pos 1 ≤ℤ c.quic_port) × (c.quic_port ≤ℤ pos 65535)
  pub peers : is_empty c.bootstrap_peers ≡ false
  pub backend : (c.backend_type ≡ "ollama") × (is_uri c.backend_base_url ≡ true)
  pub heartbeat : pos 0 <ℤ c.heartbeat_interval_sec
  pub timeouts : (pos 0 <ℤ c.first_token_sec) × (pos 0 <ℤ c.total_request_sec)
  pub mode : (c.gateway_mode ≡ "official") ⊎ (c.gateway_mode ≡ "community")
  pub official : c.gateway_mode ≡ "official" → (c.control_api_token ≢ "") × (c.postgres.dsn ≢ "")
  pub batches : (pos 0 <ℤ c.telemetry.batch_max_events) × (pos 0 <ℤ c.telemetry.flush_interval_sec)
  pub prices : Every (λ model m. IsPrice m) c.model_pricing
  pub gateway_prices : Every (λ model m. IsPrice m) c.gateway_model_pricing

abbrev pub Passed : Check → Type 0
Passed check = check.0 ≡ false

first_failure-none : (checks : List Check) → first_failure checks ≡ none → All Passed checks
unfolding first_failure
first_failure-none [] h = tt
first_failure-none ((true, message) ∷ checks) h = ground arith
first_failure-none ((false, message) ∷ checks) h = (refl, first_failure-none checks h)

All-append : (xs ys : List Check) → All Passed (xs ++ ys) → All Passed xs × All Passed ys
All-append [] ys h = (tt, h)
All-append (x ∷ xs) ys (p, h) = let (l, r) = All-append xs ys h in ((p, l), r)

price_lem : (m : ModelPricing) → validate_model_pricing m ≡ none → IsPrice m
unfolding validate_model_pricing pricing_checks
price_lem m h =
    let (a, (b, (c, (d, (e, u))))) = first_failure-none (pricing_checks m) h in
    record {
      price_nonneg = ground arith;
      min_nonneg = ground arith;
      max_nonneg = ground arith;
      output_nonneg = ground arith;
      ordered = ground arith;
    }

prices_lem :
    (ms : Map ModelPricing) → validate_all_pricing ms ≡ none → Every (λ model m. IsPrice m) ms
unfolding validate_all_pricing
prices_lem [] h = tt
prices_lem ((model, m) ∷ ms) h = elim (Option-cases (validate_model_pricing m)) [
  | inl e ↦ (price_lem m e, prices_lem ms (ground arith))
  | inr (message, e) ↦ ground arith
]

module _ (is_uri : String → Bool) where
  checks_lem :
      (c : Config)
      → validate is_uri c ≡ none
      → (first_failure (all_checks is_uri c) ≡ none)
        × (validate_all_pricing c.model_pricing ≡ none)
        × (validate_all_pricing c.gateway_model_pricing ≡ none)
  unfolding validate
  checks_lem c h = elim (Option-cases (first_failure (all_checks is_uri c))) [
    | inr (m, e) ↦ ground arith
    | inl e ↦ elim (Option-cases (validate_all_pricing c.model_pricing)) [
      | inr (m, f) ↦ ground arith
      | inl f ↦ (e, f, ground arith)
    ]
  ]

  x402_lem :
      (x : NodeX402)
      → All Passed (x402_checks x)
      → x.enabled ≡ true
      → (x.pay_to ≢ "") × (pos 0 <ℤ x.price_per_1k_atomic)
  unfolding x402_checks
  x402_lem x (a, (b, (c, (d, (e, u))))) on = ground (arith, eq_iff x.pay_to "")

  record Reached (c : Config) : Type 0 where
    named : c.name ≢ ""
    x402 : All Passed (x402_checks c.x402)
    network : All Passed (network_checks is_uri c)
    gateway : All Passed (gateway_checks is_uri c)
    store : All Passed (store_checks c)

  reached_lem : (c : Config) → All Passed (all_checks is_uri c) → Reached c
  unfolding all_checks
  reached_lem c (n, h) =
      let x = x402_checks c.x402 in
      let w = network_checks is_uri c in
      let g = gateway_checks is_uri c in
      let (h1, in_store) = All-append (x ++ w ++ g) (store_checks c) h in
      let (h2, in_gateway) = All-append (x ++ w) g h1 in
      let (in_x402, in_network) = All-append x w h2 in
      record {
        named = λ e. cc (n, (eq_iff c.name "").1 e);
        x402 = in_x402;
        network = in_network;
        gateway = in_gateway;
        store = in_store;
      }

  network_lem :
      (c : Config)
      → All Passed (network_checks is_uri c)
      → ((pos 1 ≤ℤ c.tcp_port) × (c.tcp_port ≤ℤ pos 65535))
        × ((pos 1 ≤ℤ c.quic_port) × (c.quic_port ≤ℤ pos 65535))
        × (is_empty c.bootstrap_peers ≡ false)
        × ((c.backend_type ≡ "ollama") × (is_uri c.backend_base_url ≡ true))
        × (pos 0 <ℤ c.heartbeat_interval_sec)
        × ((pos 0 <ℤ c.first_token_sec) × (pos 0 <ℤ c.total_request_sec))
  unfolding network_checks
  network_lem c (tcp, (quic, (peers, (type, (uri, (beat, (first, (total, u)))))))) = (
    (ground arith, ground arith),
    (ground arith, ground arith),
    peers,
    (ground (arith, eq_iff c.backend_type "ollama"), ground arith),
    ground arith,
    (ground arith, ground arith),
  )

  gateway_lem :
      (c : Config)
      → All Passed (gateway_checks is_uri c)
      → ((c.gateway_mode ≡ "official") ⊎ (c.gateway_mode ≡ "community"))
        × ((pos 0 <ℤ c.telemetry.batch_max_events) × (pos 0 <ℤ c.telemetry.flush_interval_sec))
  unfolding gateway_checks telemetry_checks
  gateway_lem c (listen, (mode, (auth, (batch, (flush, rest))))) = (
    elim (Bool-cases (c.gateway_mode == "official")) [
      | inl e ↦ inl ((eq_iff c.gateway_mode "official").0 e)
      | inr e ↦ inr (ground (arith, eq_iff c.gateway_mode "community"))
    ],
    (ground arith, ground arith),
  )

  store_lem :
      (c : Config)
      → All Passed (store_checks c)
      → c.gateway_mode ≡ "official"
      → (c.control_api_token ≢ "") × (c.postgres.dsn ≢ "")
  unfolding store_checks
  store_lem c (db, (o, (i, (l, (token, (dsn, u)))))) official = ground (
    arith,
    eq_iff c.gateway_mode "official",
    eq_iff c.control_api_token "",
    eq_iff c.postgres.dsn "",
  )

  validate-IsUsable : (c : Config) → validate is_uri c ≡ none → IsUsable is_uri c
  validate-IsUsable c h =
      let (checks, own, gateway) = checks_lem c h in
      let r = reached_lem c (first_failure-none (all_checks is_uri c) checks) in
      let (tcp, quic, peers, backend, beat, timeouts) = network_lem c r.network in
      let (mode, batches) = gateway_lem c r.gateway in
      record {
        named = r.named;
        paid = x402_lem c.x402 r.x402;
        tcp = tcp;
        quic = quic;
        peers = peers;
        backend = backend;
        heartbeat = beat;
        timeouts = timeouts;
        mode = mode;
        official = store_lem c r.store;
        batches = batches;
        prices = prices_lem c.model_pricing own;
        gateway_prices = prices_lem c.gateway_model_pricing gateway;
      }

  -- A configuration that loads is the file's with its defaults filled in, and usable: named, with
  -- ports in range, bootstrap peers, an Ollama backend at a well-formed address, positive intervals
  -- and timeouts, a known gateway mode whose official kind has a token and a database, a payee and a
  -- positive price where payment is on, and sound prices for every model.
  pub load-IsUsable :
      (parse : String → Result Config) (raw : String) (c : Config)
      → load is_uri parse raw ≡ ok c
      → (read : Config) × (parse raw ≡ ok read) × (c ≡ apply_defaults read) × IsUsable is_uri c
  unfolding load
  load-IsUsable parse raw c h = from_parse (parse raw) refl h
    where
      from_parse :
          (found : Result Config)
          → parse raw ≡ found
          → elim found [
            | err e ↦ err e
            | ok read ↦ elim (validate is_uri (apply_defaults read)) [
              | none ↦ ok (apply_defaults read)
              | some message ↦ err message
            ]
          ]
            ≡ ok c
          → (read : Config) × (parse raw ≡ ok read) × (c ≡ apply_defaults read) × IsUsable is_uri c
      from_parse (err e) p h = cc
      from_parse (ok read) p h = elim (Option-cases (validate is_uri (apply_defaults read))) [
        | inl e ↦
            let same : c ≡ apply_defaults read = ground arith in
            (read, p, same, rw same (validate-IsUsable (apply_defaults read) e))
        | inr (message, e) ↦ ground arith
      ]

or_default_idem : (d n : ℤ) → or_default d (or_default d n) ≡ or_default d n
or_default_idem d n = ground arith

or_default_text_idem :
    (d s : String) → or_default_text d (or_default_text d s) ≡ or_default_text d s
or_default_text_idem d s = ground arith

default_x402_idem : (x : NodeX402) → default_x402 (default_x402 x) ≡ default_x402 x
unfolding default_x402
default_x402_idem x = λ i. record x {
  network = or_default_text_idem "eip155:84532" x.network i;
  asset = or_default_text_idem "0x036CbD53842c5426634e7929541eC2318f3dCF7e" x.asset i;
  token_name = or_default_text_idem "USDC" x.token_name i;
  token_version = or_default_text_idem "2" x.token_version i;
  default_output_tokens = or_default_idem (pos 256) x.default_output_tokens i;
}

default_telemetry_idem :
    (x : Telemetry) → default_telemetry (default_telemetry x) ≡ default_telemetry x
unfolding default_telemetry
default_telemetry_idem x = λ i. record x {
  batch_max_events = or_default_idem (pos 200) x.batch_max_events i;
  flush_interval_sec = or_default_idem (pos 60) x.flush_interval_sec i;
}

-- Filling in the defaults again changes nothing.
apply_defaults_idem : (c : Config) → apply_defaults (apply_defaults c) ≡ apply_defaults c
unfolding apply_defaults
apply_defaults_idem c = λ i. record c {
  heartbeat_interval_sec = or_default_idem (pos 30) c.heartbeat_interval_sec i;
  first_token_sec = or_default_idem (pos 30) c.first_token_sec i;
  total_request_sec = or_default_idem (pos 120) c.total_request_sec i;
  gateway_listen = or_default_text_idem "127.0.0.1:8080" c.gateway_listen i;
  gateway_mode = or_default_text_idem "community" c.gateway_mode i;
  auth_mode = or_default_text_idem "off" c.auth_mode i;
  telemetry = default_telemetry_idem c.telemetry i;
  backend_type = or_default_text_idem "ollama" c.backend_type i;
  backend_base_url = or_default_text_idem "http://127.0.0.1:11434" c.backend_base_url i;
  x402 = default_x402_idem c.x402 i;
}
