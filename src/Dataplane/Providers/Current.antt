-- ===== src/Dataplane/Providers/Current.antt =====
-- What the calls on providers do to the active wallets, whatever statements are refused.
use mathlib.Core.Bool.{false≢true}
use text.Mathlib.TextEquality.{eq_iff}
use ai_peer.Base.{
  String, Bool, true, ℤ, ◌≤◌, length, length-keep-le, some, List, [], ◌∷◌, ◌≡◌, ◌⊎◌, inl, inr, refl,
  arith, if◌then◌else◌, ◌==◌, string_eq, not, ◌&&◌, Bool-cases, lookup, trim_space, is_some,
  lookup-insert, insert, ◌∙◌,
}
use ai_peer.Gateway.Records.{
  ProviderRegisterRequest, ProviderHeartbeatRequest, ProviderWalletRotateRequest,
}
use ai_peer.Dataplane.Tables.{Tables, ok, err, statement, ◌>>=◌, ProviderRow}
use ai_peer.Dataplane.Faults.{
  Agrees, transaction-Agrees, SubM, Sub-bind, Sub-statement, Sub-refl, never, is_err,
}
use ai_peer.Dataplane.Providers.{
  upsert_provider, heartbeat_provider, rotate_provider_wallet, rotate_body, close_where, owned,
  owned_other, active_wallet, has_active,
}
use ai_peer.Dataplane.Providers.Wallets.{
  active_of, active_of-close_owned, active_of-close_other, active_of-active_wallet,
  active_of-given_wallet, given_wallet,
}

-- Each provider has at most one active wallet.
abbrev pub OneActive : Tables → Type 0
OneActive t = (c : String) → length (active_of c t.wallets) ≤ 1

upsert_steps :
    (fails : String → Bool) (now : ℤ) (req : ProviderRegisterRequest) (t : Tables)
    → ((upsert_provider fails now req t).0.wallets ≡ t.wallets)
      ⊎ ((upsert_provider fails now req t).0.wallets
          ≡ close_where now (owned_other req.provider_id req.wallet_address) t.wallets)
      ⊎ ((upsert_provider fails now req t).0.wallets
          ≡ given_wallet now req.provider_id req.wallet_address t.wallets)
unfolding upsert_provider statement given_wallet
upsert_steps fails now req t = ground arith

heartbeat_keeps_wallets :
    (fails : String → Bool) (now : ℤ) (req : ProviderHeartbeatRequest) (t : Tables)
    → (heartbeat_provider fails now req t).0.wallets ≡ t.wallets
unfolding heartbeat_provider statement
heartbeat_keeps_wallets fails now req t = ground arith

abbrev rotated : ℤ → ProviderWalletRotateRequest → Tables → Tables
rotated now req t = record t {
  wallets =
      active_wallet req.provider_id req.new_wallet req.rotation_proof
      ∷ close_where now (owned req.provider_id) t.wallets;
}

rotate_lem :
    (now : ℤ) (req : ProviderWalletRotateRequest) (t : Tables)
    → rotate_provider_wallet never now req t ≡ (
        if is_some (lookup req.provider_id t.providers)
        then (rotated now req t, ok tt)
        else (t, err "insert rotated wallet"))
unfolding rotate_provider_wallet rotate_body statement ◌>>=◌
rotate_lem now req t = ground arith

rotate_body-Sub :
    (fails : String → Bool) (now : ℤ) (req : ProviderWalletRotateRequest)
    → SubM (rotate_body fails now req) (rotate_body never now req)
unfolding rotate_body
rotate_body-Sub fails now req = search (Sub-bind, Sub-statement, Sub-refl) depth 12

rotate-Agrees :
    (fails : String → Bool) (now : ℤ) (req : ProviderWalletRotateRequest) (t : Tables)
    → Agrees t (rotate_provider_wallet fails now req t) (rotate_provider_wallet never now req t)
unfolding rotate_provider_wallet rotate_body
rotate-Agrees fails now req t = transaction-Agrees t _ _ (rotate_body-Sub fails now req t)

rotate_steps :
    (fails : String → Bool) (now : ℤ) (req : ProviderWalletRotateRequest) (t : Tables)
    → ((is_err (rotate_provider_wallet fails now req t).1 ≡ true)
        × ((rotate_provider_wallet fails now req t).0 ≡ t))
      ⊎ (is_some (lookup req.provider_id t.providers) ≡ true)
        × (rotate_provider_wallet fails now req t ≡ (rotated now req t, ok tt))
rotate_steps fails now req t =
    let (on_err, on_ok) = rotate-Agrees fails now req t in
    elim (Bool-cases (is_err (rotate_provider_wallet fails now req t).1)) [
      | inl e ↦ inl (e, on_err e)
      | inr e ↦ elim (Bool-cases (is_some (lookup req.provider_id t.providers))) [
        | inl known ↦ inr (known, on_ok e ∙ rotate_lem now req t ∙ rw known refl)
        | inr unknown ↦ absurd (ground (arith, rotate_lem now req t, on_ok e, false≢true))
      ]
    ]

-- A provider's active wallets are none, the ones it had, or one.
given_wallet-OneActive :
    (now : ℤ) (p w : String) (t t' : Tables)
    → t'.wallets ≡ given_wallet now p w t.wallets
    → OneActive t
    → OneActive t'
given_wallet-OneActive now p w t t' e h c =
    rw (e, active_of-given_wallet now p w c t.wallets (h p))
      (elim (Bool-cases (p == c)) [ inl q ↦ rw q (ground arith) | inr q ↦ rw q (h c) ])

upsert-OneActive :
    (fails : String → Bool) (now : ℤ) (req : ProviderRegisterRequest) (t : Tables)
    → OneActive t
    → OneActive (upsert_provider fails now req t).0
upsert-OneActive fails now req t h = elim (upsert_steps fails now req t) [
  | inl e ↦ λ c. rw e (h c)
  | inr (inl e) ↦ λ c.
      rw (e, active_of-close_other now req.provider_id req.wallet_address c t.wallets)
        (ground
          (arith, h c, length-keep-le (λ held. held == req.wallet_address) (active_of c t.wallets)))
  | inr (inr e) ↦
      given_wallet-OneActive now req.provider_id req.wallet_address t
        (upsert_provider fails now req t).0 e h
]

active_of-rotated :
    (now : ℤ) (req : ProviderWalletRotateRequest) (c : String) (t : Tables)
    → active_of c (rotated now req t).wallets
      ≡ (if req.provider_id == c then req.new_wallet ∷ [] else active_of c t.wallets)
active_of-rotated now req c t =
    rw
      (
        active_of-active_wallet req.provider_id req.new_wallet req.rotation_proof c
            (close_where now (owned req.provider_id) t.wallets),
        active_of-close_owned now req.provider_id c t.wallets,
      )
      (elim (Bool-cases (req.provider_id == c)) [ inl q ↦ rw q refl | inr q ↦ rw q refl ])

rotate-OneActive :
    (fails : String → Bool) (now : ℤ) (req : ProviderWalletRotateRequest) (t : Tables)
    → OneActive t
    → OneActive (rotate_provider_wallet fails now req t).0
rotate-OneActive fails now req t h = elim (rotate_steps fails now req t) [
  | inl (_, e) ↦ λ c. rw e (h c)
  | inr (_, e) ↦ λ c.
      rw (e, active_of-rotated now req c t)
        (elim (Bool-cases (req.provider_id == c)) [
          | inl q ↦ rw q (ground arith)
          | inr q ↦ rw q (h c)
        ])
]

pub data ProviderCall : Type 0 where
  register : ProviderRegisterRequest → ProviderCall
  heartbeat : ProviderHeartbeatRequest → ProviderCall
  rotate : ProviderWalletRotateRequest → ProviderCall

-- A call at a time, with the statements that are refused in it.
abbrev pub Timed : Type 0
Timed = (String → Bool) × ℤ × ProviderCall

unfoldable pub provider_step : Timed → Tables → Tables
provider_step (fails, now, register req) t = (upsert_provider fails now req t).0
provider_step (fails, now, heartbeat req) t = (heartbeat_provider fails now req t).0
provider_step (fails, now, rotate req) t = (rotate_provider_wallet fails now req t).0

unfoldable pub provider_run : List Timed → Tables → Tables
provider_run [] t = t
provider_run (call ∷ calls) t = provider_run calls (provider_step call t)

step-OneActive : (call : Timed) (t : Tables) → OneActive t → OneActive (provider_step call t)
unfolding provider_step
step-OneActive (fails, now, register req) t h = upsert-OneActive fails now req t h
step-OneActive (fails, now, heartbeat req) t h =
    λ c. rw (heartbeat_keeps_wallets fails now req t) (h c)
step-OneActive (fails, now, rotate req) t h = rotate-OneActive fails now req t h

-- Where each provider has at most one active wallet, it has at most one after any sequence of
-- registrations, heartbeats and wallet rotations, whatever statements are refused in each call.
pub run-OneActive :
    (calls : List Timed) (t : Tables) → OneActive t → OneActive (provider_run calls t)
unfolding provider_run
run-OneActive [] t h = h
run-OneActive (call ∷ calls) t h =
    run-OneActive calls (provider_step call t) (step-OneActive call t h)

-- A rotation fails and changes nothing, or the provider is known and the new wallet is its only
-- active one, while every other provider keeps its active wallets.
pub rotate_all_or_nothing :
    (fails : String → Bool) (now : ℤ) (req : ProviderWalletRotateRequest) (t : Tables)
    → ((is_err (rotate_provider_wallet fails now req t).1 ≡ true)
        × ((rotate_provider_wallet fails now req t).0 ≡ t))
      ⊎ ((is_some (lookup req.provider_id t.providers) ≡ true)
          × ((rotate_provider_wallet fails now req t).1 ≡ ok tt)
          × ((c : String)
              → active_of c (rotate_provider_wallet fails now req t).0.wallets
                ≡ (if req.provider_id == c then req.new_wallet ∷ [] else active_of c t.wallets)))
rotate_all_or_nothing fails now req t = elim (rotate_steps fails now req t) [
  | inl (message, e) ↦ inl (message, e)
  | inr (known, e) ↦ inr (rw e (known, refl, λ c. active_of-rotated now req c t))
]

abbrev pub registered_row : ℤ → ProviderRegisterRequest → ProviderRow
registered_row now req = record {
  peer_id = req.peer_id;
  status = req.status;
  last_seen_at = now;
  metadata = req.metadata;
}

upsert_lem :
    (now : ℤ) (req : ProviderRegisterRequest) (t : Tables)
    → upsert_provider never now req t ≡ (
      record t {
        providers = insert req.provider_id (registered_row now req) t.providers;
        wallets =
            if trim_space req.wallet_address == ""
            then t.wallets
            else given_wallet now req.provider_id req.wallet_address t.wallets;
      },
      ok tt,
    )
unfolding upsert_provider statement given_wallet has_active close_where
upsert_lem now req t =
    let known =
      lookup-insert req.provider_id req.provider_id (registered_row now req) t.providers in
    elim (Bool-cases (trim_space req.wallet_address == "")) [
      | inl e ↦ rw e refl
      | inr e ↦
          elim (Bool-cases (
            has_active req.provider_id req.wallet_address
              (close_where now (owned_other req.provider_id req.wallet_address) t.wallets))) [
                | inl q ↦ rw (e, q) refl
                | inr q ↦ rw (e, q, known, (eq_iff req.provider_id req.provider_id).1 refl) refl
              ]
    ]

-- Where no statement is refused, a registration with a wallet leaves that wallet the provider's only
-- active one, and one without a wallet leaves the provider's wallets alone; no other provider's wallets change. The
-- provider is then known with the given peer, status and metadata.
pub registered_wallet :
    (now : ℤ) (req : ProviderRegisterRequest) (c : String) (t : Tables)
    → length (active_of req.provider_id t.wallets) ≤ 1
    → ((upsert_provider never now req t).1 ≡ ok tt)
      × (lookup req.provider_id (upsert_provider never now req t).0.providers
          ≡ some (registered_row now req))
      × (active_of c (upsert_provider never now req t).0.wallets ≡ (
          if req.provider_id == c && not (trim_space req.wallet_address == "")
          then req.wallet_address ∷ []
          else active_of c t.wallets))
registered_wallet now req c t h =
    rw
      (
        upsert_lem now req t,
        lookup-insert req.provider_id req.provider_id (registered_row now req) t.providers,
        (eq_iff req.provider_id req.provider_id).1 refl,
      )
      (
        refl,
        refl,
        elim (Bool-cases (trim_space req.wallet_address == "")) [
          | inl e ↦ rw e (ground arith)
          | inr e ↦
              rw (e, active_of-given_wallet now req.provider_id req.wallet_address c t.wallets h)
                (ground arith)
        ],
      )
