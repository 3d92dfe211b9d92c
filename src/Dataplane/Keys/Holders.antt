-- ===== src/Dataplane/Keys/Holders.antt =====
-- Who holds which key: what clearing a pointer leaves alone, and that a consumer has one key at most.
use text.Mathlib.TextEquality.{eq_iff}
use mathlib.Core.Bool.{false≢true}
use ai_peer.Base.{
  String, true, false, none, some, Map, lookup, insert, [], ◌∷◌, ◌≡◌, ◌⊎◌, ◌∙◌, sym, ap, subst,
  refl, arith, ◌==◌, string_eq, lookup-insert, Bool-cases, Option-cases, inl, inr,
}
use ai_peer.Dataplane.Tables.{Tables, Consumer, KeyRow}
use ai_peer.Dataplane.Keys.{principal_of, who, has_hash, hash_taken, clear_hash, wallet_of, is_live}
use ai_peer.Dataplane.Keys.Lifecycle.{is_owner}

-- The row after its pointer is cleared.
abbrev cleared : Consumer → Consumer
cleared row = record row { api_key_hash = none }

clear_hash_cases :
    (c old : String) (consumers : Map Consumer)
    → (clear_hash c old consumers ≡ consumers)
      ⊎ ((row : Consumer) × (lookup c consumers ≡ some row)
          × (clear_hash c old consumers ≡ insert c (cleared row) consumers))
clear_hash_cases c old consumers = elim (Option-cases (lookup c consumers)) [
  | inl gone ↦ inl (rw (clear_hash, gone) refl)
  | inr (row, found) ↦ elim (Bool-cases (has_hash old row)) [
    | inl y ↦ inr (row, found, rw (clear_hash, found, y) refl)
    | inr n ↦ inl (rw (clear_hash, found, n) refl)
  ]
]

hash_taken-insert :
    (c h : String) (row : Consumer) (consumers : Map Consumer)
    → hash_taken c h (insert c row consumers) ≡ hash_taken c h consumers
unfolding hash_taken insert
hash_taken-insert c h row [] = ground (arith, eq_iff c c)
hash_taken-insert c h row ((j, other) ∷ rest) =
    ground (arith, hash_taken-insert c h row rest, eq_iff c c, eq_iff j c)

pub hash_taken-clear_hash :
    (c old h : String) (consumers : Map Consumer)
    → hash_taken c h (clear_hash c old consumers) ≡ hash_taken c h consumers
hash_taken-clear_hash c old h consumers = elim (clear_hash_cases c old consumers) [
  | inl e ↦ ap (hash_taken c h) e
  | inr (row, found, e) ↦ ap (hash_taken c h) e ∙ hash_taken-insert c h (cleared row) consumers
]

pub wallet_of-clear_hash :
    (c old : String) (consumers : Map Consumer)
    → wallet_of (lookup c (clear_hash c old consumers)) ≡ wallet_of (lookup c consumers)
wallet_of-clear_hash c old consumers = elim (clear_hash_cases c old consumers) [
  | inl e ↦ ap (λ m. wallet_of (lookup c m)) e
  | inr (row, found, e) ↦
      ap (λ m. wallet_of (lookup c m)) e
      ∙ ap wallet_of (lookup-insert c c (cleared row) consumers)
      ∙ rw ((eq_iff c c).1 refl, found) refl
]

-- What it means that a key lets the consumer in.
abbrev pub Holds : String → String → Tables → KeyRow → Consumer → Type 0
Holds c h t key row =
    (lookup h t.api_keys ≡ some key)
    × (is_live c key ≡ true)
    × (lookup c t.consumers ≡ some row)
    × (has_hash h row ≡ true)

row_lem :
    (c h : String) (key : KeyRow) (row : Consumer) (t : Tables)
    → lookup h t.api_keys ≡ some key
    → (key.status == "active") ≡ true
    → lookup key.consumer_id t.consumers ≡ some row
    → is_owner c (principal_of h key.consumer_id row) ≡ true
    → Holds c h t key row
row_lem c h key row t found active there own = elim (Bool-cases (has_hash h row)) [
  | inr n ↦ absurd (false≢true (rw n at own))
  | inl has ↦
      let same : (key.consumer_id == c) ≡ true = rw has at own in
      let e : key.consumer_id ≡ c = (eq_iff key.consumer_id c).0 same in
      (found, rw (same, active) refl, ap (λ k. lookup k t.consumers) (sym e) ∙ there, has)
]

pub holds_lem :
    (c h : String) (t : Tables)
    → is_owner c (who h t) ≡ true
    → (key : KeyRow) × (row : Consumer) × Holds c h t key row
unfolding who
holds_lem c h t own = elim (Option-cases (lookup h t.api_keys)) [
  | inl gone ↦ absurd (false≢true (rw gone at own))
  | inr (key, found) ↦ elim (Bool-cases (key.status == "active")) [
    | inr n ↦ absurd (false≢true (rw (found, n) at own))
    | inl active ↦ elim (Option-cases (lookup key.consumer_id t.consumers)) [
      | inl gone ↦ absurd (false≢true (rw (found, active, gone) at own))
      | inr (row, there) ↦
          (key, row, row_lem c h key row t found active there (rw (found, active, there) at own))
    ]
  ]
]

same_hash :
    (h other : String) (row : Consumer)
    → has_hash h row ≡ true
    → has_hash other row ≡ true
    → h ≡ other
same_hash h other row p q = elim (Option-cases row.api_key_hash) [
  | inl gone ↦ absurd (false≢true (rw gone at p))
  | inr (own, e) ↦
      let a : (own == h) ≡ true = rw e at p in
      let b : (own == other) ≡ true = rw e at q in sym ((eq_iff own h).0 a) ∙ (eq_iff own other).0 b
]

-- A consumer is let in by one key at most.
pub one_key :
    (c h other : String) (t : Tables)
    → is_owner c (who h t) ≡ true
    → (h == other) ≡ false
    → is_owner c (who other t) ≡ false
one_key c h other t own differ = elim (Bool-cases (is_owner c (who other t))) [
  | inr n ↦ n
  | inl y ↦
      let (key, row, (_, _, there, has)) = holds_lem c h t own in
      let (key', row', (_, _, there', has')) = holds_lem c other t y in
      let e : some row ≡ some row' = sym there ∙ there' in
      let r : row ≡ row' = cc in
      absurd (
        false≢true (
          sym differ
          ∙ (eq_iff h other).1
              (same_hash h other row has (subst (λ x. has_hash other x ≡ true) (sym r) has'))))
]
