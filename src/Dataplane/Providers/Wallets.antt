-- ===== src/Dataplane/Providers/Wallets.antt =====
-- Which wallets of a provider are active.
use text.Mathlib.TextEquality.{eq_iff}
use ai_peer.Base.{
  String, ℤ, List, [], ◌∷◌, ◌≡◌, refl, arith, if◌then◌else◌, ◌==◌, string_eq, ◌&&◌, keep, length,
  any, ◌≤◌, Bool-cases, inl, inr,
}
use ai_peer.Dataplane.Tables.{WalletRow}
use ai_peer.Dataplane.Providers.{
  close_where, owned, owned_other, has_active, is_active, active_wallet,
}

-- The provider's active wallets, the newest first.
unfoldable pub active_of : String → List WalletRow → List String
active_of provider [] = []
active_of provider (row ∷ rows) =
    let rest = active_of provider rows in
    if is_active row && row.provider_id == provider then row.wallet_address ∷ rest else rest

pub active_of-close_owned :
    (now : ℤ) (p c : String) (rows : List WalletRow)
    → active_of c (close_where now (owned p) rows) ≡ (if p == c then [] else active_of c rows)
unfolding active_of close_where
active_of-close_owned now p c [] = ground arith
active_of-close_owned now p c (row ∷ rows) = ground (
  arith,
  active_of-close_owned now p c rows,
  eq_iff row.provider_id p,
  eq_iff row.provider_id c,
  eq_iff p c,
)

pub active_of-close_other :
    (now : ℤ) (p w c : String) (rows : List WalletRow)
    → active_of c (close_where now (owned_other p w) rows)
      ≡ (if p == c then keep (λ held. held == w) (active_of c rows) else active_of c rows)
unfolding active_of close_where
active_of-close_other now p w c [] = ground arith
active_of-close_other now p w c (row ∷ rows) = ground (
  arith,
  active_of-close_other now p w c rows,
  eq_iff row.provider_id p,
  eq_iff row.provider_id c,
  eq_iff p c,
)

pub active_of-active_wallet :
    (p w proof c : String) (rows : List WalletRow)
    → active_of c (active_wallet p w proof ∷ rows)
      ≡ (if p == c then w ∷ active_of c rows else active_of c rows)
unfolding active_of
active_of-active_wallet p w proof c rows = refl

has_active_lem :
    (p w : String) (rows : List WalletRow)
    → has_active p w rows ≡ any (λ held. held == w) (active_of p rows)
unfolding has_active active_of
has_active_lem p w [] = refl
has_active_lem p w (row ∷ rows) = ground (arith, has_active_lem p w rows)

only_one :
    (w : String) (held : List String)
    → length held ≤ 1
    → (if any (λ x. x == w) (keep (λ x. x == w) held)
        then keep (λ x. x == w) held
        else w ∷ keep (λ x. x == w) held)
      ≡ w ∷ []
only_one w [] h = refl
only_one w (x ∷ []) h = ground (arith, eq_iff x w)
only_one w (x ∷ y ∷ held) h = ground arith

-- The history after the provider has been given a wallet.
unfoldable pub given_wallet : ℤ → String → String → List WalletRow → List WalletRow
given_wallet now p w rows =
    let closed = close_where now (owned_other p w) rows in
    if has_active p w closed then closed else active_wallet p w "" ∷ closed

active_of-reopened :
    (p w c : String) (closed : List WalletRow)
    → active_of c (if has_active p w closed then closed else active_wallet p w "" ∷ closed) ≡ (
        if any (λ held. held == w) (active_of p closed)
        then active_of c closed
        else if p == c
        then w ∷ active_of c closed
        else active_of c closed)
active_of-reopened p w c closed =
    rw (← has_active_lem p w closed) (elim (Bool-cases (has_active p w closed)) [
      | inl e ↦ rw e refl
      | inr e ↦ rw (e, active_of-active_wallet p w "" c closed) refl
    ])

pub active_of-given_wallet :
    (now : ℤ) (p w c : String) (rows : List WalletRow)
    → length (active_of p rows) ≤ 1
    → active_of c (given_wallet now p w rows) ≡ (if p == c then w ∷ [] else active_of c rows)
unfolding given_wallet
active_of-given_wallet now p w c rows h =
    rw
      (
        active_of-reopened p w c (close_where now (owned_other p w) rows),
        active_of-close_other now p w c rows,
        active_of-close_other now p w p rows,
        (eq_iff p p).1 refl,
      )
      (elim (Bool-cases (p == c)) [
        | inl e ↦ let q : p ≡ c = (eq_iff p c).0 e in rw (e, ← q) (only_one w (active_of p rows) h)
        | inr e ↦ rw e (ground arith)
      ])
