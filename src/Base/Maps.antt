-- ===== src/Base/Maps.antt =====
-- Maps whose keys are distinct, as those of a Go map are.
use mathlib.Core.Path.{◌≡◌, refl, sym}
use mathlib.Core.Logic.{◌≢◌, inl, inr}
use mathlib.Core.Option.{none, some}
use mathlib.Core.List.{[], ◌∷◌}
use Prim.Native.String.{String}
use native.Mathlib.Omega.{arith}
use text.Mathlib.TextEquality.{eq_iff}
use ai_peer.Base.Tests.{◌==◌, string_eq, Bool-cases}
use ai_peer.Base.Lists.{Map, lookup, insert, delete}

module _ {ℓ} {V : Type ℓ} where
  abbrev pub Absent : String → Map V → Type 0
  Absent k [] = Unit
  Absent k ((j, v) ∷ m) = (j ≢ k) × Absent k m

  abbrev pub Distinct : Map V → Type 0
  Distinct [] = Unit
  Distinct ((j, v) ∷ m) = Absent j m × Distinct m

  pub lookup_of_Absent : (k : String) (m : Map V) → Absent k m → lookup k m ≡ none
  unfolding lookup
  lookup_of_Absent k [] h = refl
  lookup_of_Absent k ((j, v) ∷ m) h = ground (arith, eq_iff j k, lookup_of_Absent k m)

  Absent-insert : (k j : String) (v : V) (m : Map V) → k ≢ j → Absent j m → Absent j (insert k v m)
  unfolding insert
  Absent-insert k j v [] ne h = (ne, tt)
  Absent-insert k j v ((i, w) ∷ m) ne h = ground (arith, eq_iff i k, Absent-insert k j v m)

  pub insert-Distinct : (k : String) (v : V) (m : Map V) → Distinct m → Distinct (insert k v m)
  unfolding insert
  insert-Distinct k v [] h = (tt, tt)
  insert-Distinct k v ((j, w) ∷ m) (a, d) = elim (Bool-cases (j == k)) [
    | inl e ↦ rw e (let q : j ≡ k = (eq_iff j k).0 e in (rw q at a, d))
    | inr e ↦
        rw e
          (Absent-insert k j v m (λ q. cc (e, (eq_iff j k).1 (sym q))) a, insert-Distinct k v m d)
  ]

  Absent-delete : (k j : String) (m : Map V) → Absent j m → Absent j (delete k m)
  unfolding delete
  Absent-delete k j [] h = tt
  Absent-delete k j ((i, w) ∷ m) h = ground (arith, eq_iff i k, Absent-delete k j m)

  pub delete-Distinct : (k : String) (m : Map V) → Distinct m → Distinct (delete k m)
  unfolding delete
  delete-Distinct k [] h = tt
  delete-Distinct k ((j, w) ∷ m) h =
      ground (arith, eq_iff j k, Absent-delete k j m, delete-Distinct k m)

module _ {ℓ κ} {V : Type ℓ} (P : String → V → Type κ) where
  -- What holds of every entry.
  abbrev pub Every : Map V → Type κ
  Every [] = Unit
  Every ((k, v) ∷ m) = P k v × Every m

  pub Every-insert : (k : String) (v : V) (m : Map V) → P k v → Every m → Every (insert k v m)
  unfolding insert
  Every-insert k v [] p h = (p, tt)
  Every-insert k v ((j, w) ∷ m) p (q, h) = elim (Bool-cases (j == k)) [
    | inl e ↦ rw e (p, h)
    | inr e ↦ rw e (q, Every-insert k v m p h)
  ]

  pub Every-delete : (k : String) (m : Map V) → Every m → Every (delete k m)
  unfolding delete
  Every-delete k [] h = tt
  Every-delete k ((j, w) ∷ m) (q, h) = elim (Bool-cases (j == k)) [
    | inl e ↦ rw e (Every-delete k m h)
    | inr e ↦ rw e (q, Every-delete k m h)
  ]

  pub Every-lookup : (k : String) (v : V) (m : Map V) → lookup k m ≡ some v → Every m → P k v
  unfolding lookup
  Every-lookup k v [] e h = cc
  Every-lookup k v ((j, w) ∷ m) e (q, h) = elim (Bool-cases (j == k)) [
    | inl s ↦
        let jk : j ≡ k = (eq_iff j k).0 s in let wv : w ≡ v = ground arith in rw (← jk, ← wv) q
    | inr s ↦ Every-lookup k v m (ground arith) h
  ]
