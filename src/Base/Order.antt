-- ===== src/Base/Order.antt =====
-- `sort.Slice` and `sort.SliceStable`: a stable insertion sort by the caller's `less`.
use mathlib.Core.Path.{◌≡◌, refl, ap₂, subst, ◌∙◌}
use mathlib.Core.Logic.{◌⊎◌, inl, inr, ◌↔◌}
use mathlib.Core.Bool.{Bool, true, false}
use mathlib.Core.List.{List, [], ◌∷◌, Permᴰ}
use native.Mathlib.Omega.{arith}
use ai_peer.Base.Tests.{if◌then◌else◌, Bool-cases}
use ai_peer.Base.Lists.{All, In}

-- A strict order: what Go's `sort` documents as its condition on `less`.
pub record IsStrictOrder {ℓ} {A : Type ℓ} (less : A → A → Bool) : Type ℓ where
  pub irrefl : (a : A) → less a a ≡ false
  pub trans : (a b c : A) → less a b ≡ true → less b c ≡ true → less a c ≡ true
  -- Ties are transitive: elements that `less` does not tell apart sort alike.
  pub cotrans : (a b c : A) → less a c ≡ true → (less a b ≡ true) ⊎ (less b c ≡ true)

module _ {ℓ} {A : Type ℓ} (less : A → A → Bool) where
  unfoldable pub insert_by : A → List A → List A
  insert_by x [] = x ∷ []
  insert_by x (y ∷ ys) = let rest = insert_by x ys in if less y x then y ∷ rest else x ∷ y ∷ ys

  unfoldable pub sort_by : List A → List A
  unfolding insert_by
  sort_by [] = []
  sort_by (x ∷ xs) = insert_by x (sort_by xs)

  -- No later element is less than an earlier one.
  abbrev pub Sorted : List A → Type ℓ
  Sorted [] = Unit
  Sorted (x ∷ xs) = All (λ y. less y x ≡ false) xs × Sorted xs

  -- Any two elements are told apart.
  abbrev pub Apart : A → A → Type 0
  Apart x y = (less x y ≡ true) ⊎ (less y x ≡ true)

  abbrev pub AllApart : List A → Type ℓ
  AllApart [] = Unit
  AllApart (x ∷ xs) = All (λ y. Apart x y) xs × AllApart xs

module _ {ℓ κ} {A : Type ℓ} (P : A → Type κ) (less : A → A → Bool) where
  pub All-insert_by : (x : A) (xs : List A) → P x → All P xs → All P (insert_by less x xs)
  unfolding insert_by
  All-insert_by x [] p h = (p, tt)
  All-insert_by x (y ∷ ys) p (q, h) = elim (Bool-cases (less y x)) [
    | inl e ↦ rw e (q, All-insert_by x ys p h)
    | inr e ↦ rw e (p, (q, h))
  ]

  pub All-sort_by : (xs : List A) → All P xs → All P (sort_by less xs)
  unfolding sort_by
  All-sort_by [] h = tt
  All-sort_by (x ∷ xs) (p, h) = All-insert_by x (sort_by less xs) p (All-sort_by xs h)

module _ {ℓ} {A : Type ℓ} (less : A → A → Bool) (o : IsStrictOrder less) where
  asym : (a b : A) → less a b ≡ true → less b a ≡ false
  asym a b h = elim (Bool-cases (less b a)) [
    | inl k ↦ absurd (cc (o.trans a b a h k, o.irrefl a))
    | inr k ↦ k
  ]

  le_trans : (a b c : A) → less b a ≡ false → less c b ≡ false → less c a ≡ false
  le_trans a b c h k = elim (Bool-cases (less c a)) [
    | inl e ↦ absurd (elim (o.cotrans c b a e) [ inl p ↦ cc | inr p ↦ cc ])
    | inr e ↦ e
  ]

  All-le_trans :
      (a b : A) (xs : List A)
      → less b a ≡ false
      → All (λ y. less y b ≡ false) xs
      → All (λ y. less y a ≡ false) xs
  All-le_trans a b [] h k = tt
  All-le_trans a b (x ∷ xs) h (p, k) = (le_trans a b x h p, All-le_trans a b xs h k)

  Sorted-insert_by : (x : A) (xs : List A) → Sorted less xs → Sorted less (insert_by less x xs)
  unfolding insert_by
  Sorted-insert_by x [] s = (tt, tt)
  Sorted-insert_by x (y ∷ ys) (h, s) = elim (Bool-cases (less y x)) [
    | inl e ↦
        rw e
          (All-insert_by (λ z. less z y ≡ false) less x ys (asym y x e) h, Sorted-insert_by x ys s)
    | inr e ↦ rw e ((e, All-le_trans x y ys e h), (h, s))
  ]

  pub Sorted-sort_by : (xs : List A) → Sorted less (sort_by less xs)
  unfolding sort_by
  Sorted-sort_by [] = tt
  Sorted-sort_by (x ∷ xs) = Sorted-insert_by x (sort_by less xs) (Sorted-sort_by xs)

  insert_by_comm :
      (x y : A) (s : List A)
      → Apart less x y
      → insert_by less x (insert_by less y s) ≡ insert_by less y (insert_by less x s)
  unfolding insert_by
  insert_by_comm x y [] (inl h) = rw (h, asym x y h)
  insert_by_comm x y [] (inr h) = rw (h, asym y x h)
  insert_by_comm x y (z ∷ s) h =
      ground (arith, insert_by_comm x y s h, asym x y, asym y x, o.cotrans z x y, o.cotrans z y x)

module _ {ℓ κ} {A : Type ℓ} (P : A → Type κ) where
  All-perm : {xs ys : List A} → Permᴰ xs ys → All P xs → All P ys
  All-perm Permᴰ.nil h = tt
  All-perm (Permᴰ.cons e p) (q, h) = (subst P e q, All-perm p h)
  All-perm (Permᴰ.swap e f) (q, (r, h)) = (subst P f r, (subst P e q, h))
  All-perm (Permᴰ.trans p q) h = All-perm q (All-perm p h)

module _ {ℓ} {A : Type ℓ} (less : A → A → Bool) (o : IsStrictOrder less) where
  Apart-symm : {x y : A} → Apart less x y → Apart less y x
  Apart-symm (inl h) = inr h
  Apart-symm (inr h) = inl h

  AllApart-perm : {xs ys : List A} → Permᴰ xs ys → AllApart less xs → AllApart less ys
  AllApart-perm Permᴰ.nil h = tt
  AllApart-perm (Permᴰ.cons {l₂} e p) (q, h) =
      (subst (λ z. All (λ y. Apart less z y) l₂) e (All-perm _ p q), AllApart-perm p h)
  AllApart-perm (Permᴰ.swap {a} {b} {b'} {l} e f) ((ab, al), (bl, h)) =
      subst (λ z. AllApart less (z ∷ b' ∷ l)) f
        (subst (λ z. AllApart less (b ∷ z ∷ l)) e ((Apart-symm ab, bl), (al, h)))
  AllApart-perm (Permᴰ.trans p q) h = AllApart-perm q (AllApart-perm p h)

  -- The order in which the elements come, such as a map's iteration order, does not show in the
  -- sorted list.
  pub sort_by-perm :
      {xs ys : List A} → Permᴰ xs ys → AllApart less xs → sort_by less xs ≡ sort_by less ys
  unfolding sort_by
  sort_by-perm Permᴰ.nil h = refl
  sort_by-perm (Permᴰ.cons {l₂} e p) (q, h) = ap₂ (insert_by less) e (sort_by-perm p h)
  sort_by-perm (Permᴰ.swap {a} {b} {l} e f) ((ab, al), h) =
      insert_by_comm less o a b (sort_by less l) ab
      ∙ ap₂ (λ u v. insert_by less u (insert_by less v (sort_by less l))) f e
  sort_by-perm (Permᴰ.trans p q) h = sort_by-perm p h ∙ sort_by-perm q (AllApart-perm p h)

module _ {A : Type 0} (less : A → A → Bool) where
  In-insert_by : (a x : A) (xs : List A) → In a (insert_by less x xs) ↔ ((a ≡ x) ⊎ In a xs)
  unfolding insert_by
  In-insert_by a x [] = (λ h. h, λ h. h)
  In-insert_by a x (y ∷ ys) = elim (Bool-cases (less y x)) [
    | inl e ↦ rw e (grind (arith, In-insert_by a x ys))
    | inr e ↦ rw e (λ h. h, λ h. h)
  ]

  -- Sorting keeps exactly the elements.
  pub In-sort_by : (a : A) (xs : List A) → In a (sort_by less xs) ↔ In a xs
  unfolding sort_by
  In-sort_by a [] = (λ h. h, λ h. h)
  In-sort_by a (x ∷ xs) = grind (arith, In-insert_by a x (sort_by less xs), In-sort_by a xs)
