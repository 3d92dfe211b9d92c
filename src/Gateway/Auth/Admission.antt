-- ===== src/Gateway/Auth/Admission.antt =====
-- Who gets in.
use text.Mathlib.TextEquality.{eq_iff}
use ai_peer.Gateway.Proxy.{Proxy, ControlStore}
use ai_peer.Gateway.Records.{ApiKeyPrincipal}
use ai_peer.Gateway.Auth.{
  Headers, extract_api_key, auth_off, is_authorized_official_control, received_token, after_bearer,
  or_text,
}
use ai_peer.Base.{
  Bool, strip_prefix, drop_chars, subst, sym, ◌∙◌, String, ◌≡◌, false, none, ◌==◌, some, string_eq,
  inl, true, Bool-cases, ◌↔◌, inr, trim_space, arith, ◌⊎◌, to_lower, ◌≢◌, refl, Option-cases,
}
use ai_peer.Dataplane.Tables.{ok}

-- The store knows the key of the request as the principal's.
pub record HasKey {S : Type 0} (hash : String → String) (p : Proxy S) (headers : Headers) (s : S)
    (principal : ApiKeyPrincipal) : Type 0 where
  pub key_given : (extract_api_key headers == "") ≡ false
  pub store : ControlStore S
  pub store_set : p.control_store ≡ some store
  pub key_known :
      store.lookup_active_api_key (hash (extract_api_key headers)) s ≡ ok (some principal)

-- A request is let in as nobody.
abbrev pub Anonymous : {S : Type 0} → Proxy S → Headers → Type 0
Anonymous p headers =
    (auth_off p ≡ true)
    ⊎ (((extract_api_key headers == "") ≡ true)
        × ((trim_space (to_lower p.auth_mode) == "required") ≡ false))

-- A header brings a token: after `bearer ` in any letter case, or, where `plain` says so, as it stands.
-- Spaces around the header and the token are left out.
pub data Brings (plain : Bool) (header token : String) : Type 0 where
  after_word :
      (rest : String)
      → strip_prefix "bearer " (to_lower (trim_space header)) ≡ some rest
      → trim_space (drop_chars 7 (trim_space header)) ≡ token
      → Brings plain header token
  as_it_stands :
      plain ≡ true
      → strip_prefix "bearer " (to_lower (trim_space header)) ≡ none
      → trim_space header ≡ token
      → Brings plain header token

-- The caller sends the token, in the header X-Tooti-Control-Token, or, where that brings none, in the
-- header Authorization.
abbrev pub Sends : Headers → String → Type 0
Sends headers token =
    Brings true headers.control_token token
    ⊎ (Brings true headers.control_token "" × Brings false headers.authorization token)

own_token : (h : String) → Brings true h (or_text (trim_space h) (after_bearer (trim_space h)))
unfolding after_bearer
own_token h = elim (Option-cases (strip_prefix "bearer " (to_lower (trim_space h)))) [
  | inl e ↦ rw (or_text, e) (as_it_stands refl e refl)
  | inr (rest, e) ↦ rw (or_text, e) (after_word rest e refl)
]

Brings-own :
    (h token : String)
    → Brings true h token
    → or_text (trim_space h) (after_bearer (trim_space h)) ≡ token
unfolding after_bearer
Brings-own h token (after_word rest e q) = rw (or_text, e) q
Brings-own h token (as_it_stands p e q) = rw (or_text, e) q

other_token :
    (h token : String)
    → token ≢ ""
    → (or_text "" (after_bearer (trim_space h)) ≡ token) ↔ Brings false h token
unfolding after_bearer
other_token h token ne = elim (Option-cases (strip_prefix "bearer " (to_lower (trim_space h)))) [
  | inl e ↦ (
    λ q. absurd (ne (sym (rw (or_text, e) at q))),
    λ b. elim b [ after_word rest e' q ↦ cc | as_it_stands p e' q ↦ cc ],
  )
  | inr (rest, e) ↦ (
    λ q. after_word rest e (rw (or_text, e) at q),
    λ b. elim b [ after_word rest' e' q ↦ rw (or_text, e) q | as_it_stands p e' q ↦ cc ],
  )
]

received_token_iff :
    (headers : Headers) (token : String)
    → token ≢ ""
    → (received_token headers ≡ token) ↔ Sends headers token
received_token_iff headers token ne =
    let own : String =
      or_text (trim_space headers.control_token)
        (after_bearer (trim_space headers.control_token)) in
    let brings : Brings true headers.control_token own = own_token headers.control_token in
    let (there, back) = other_token headers.authorization token ne in
    elim (Bool-cases (own == "")) [
      | inl e ↦
          let q : own ≡ "" = (eq_iff own "").0 e in
          rw e (
            λ r. inr (subst (Brings true headers.control_token) q brings, there r),
            elim [
              | inl b ↦ absurd (ne (sym (Brings-own headers.control_token token b) ∙ q))
              | inr (_, b) ↦ back b
            ],
          )
      | inr e ↦ rw e (
        λ r. inl (subst (Brings true headers.control_token) r brings),
        elim [
          | inl b ↦ Brings-own headers.control_token token b
          | inr (b, _) ↦ cc (e, (eq_iff own "").1 (Brings-own headers.control_token "" b))
        ],
      )
    ]

module _ {S : Type 0} where
  authorized_lem :
      (p : Proxy S) (headers : Headers)
      → (is_authorized_official_control p headers ≡ true) ↔ (
          (trim_space p.control_api_token ≢ "")
          × (received_token headers ≡ trim_space p.control_api_token))
  unfolding is_authorized_official_control
  authorized_lem p headers =
      let token : String = trim_space p.control_api_token in
      let received : String = received_token headers in
      ground (arith, eq_iff token "", eq_iff received "", eq_iff received token)

  -- The control endpoints open exactly for a caller that sends the configured token, in its own header or
  -- else as a bearer token, and for nobody where no token is configured.
  pub is_authorized_official_control_iff :
      (p : Proxy S) (headers : Headers)
      → (is_authorized_official_control p headers ≡ true)
        ↔ ((trim_space p.control_api_token ≢ "") × Sends headers (trim_space p.control_api_token))
  is_authorized_official_control_iff p headers =
      let (there, back) = authorized_lem p headers in
      (
        λ h.
            let (ne, e) = there h in
            (ne, (received_token_iff headers (trim_space p.control_api_token) ne).0 e),
        λ (ne, sent).
            back (ne, (received_token_iff headers (trim_space p.control_api_token) ne).1 sent),
      )
