-- ===== src/Dataplane/Usage/Query.antt =====
-- What a listing of usage events contains.
use ai_peer.Base.{
  pos, ◌≤ℤ◌, string_eq, Bool, true, false, ℤ, ℕ, zero, suc, ◌≤◌, ltb_ℤ, int_laws, Option, none,
  some, List, [], ◌∷◌, ◌≡◌, ◌↔◌, ◌⊎◌, ◌∙◌, sym, ap, refl, arith, All, In, length, keep, take,
  sort_by, Sorted, Sorted-sort_by, In-sort_by, IsStrictOrder, Bool-cases, inl, inr, subst,
}
use text.Mathlib.TextEquality.{eq_iff}
use mathlib.Core.Bool.{false≢true}
use ai_peer.Gateway.Records.{UsageEvent, UsageListFilter}
use ai_peer.Dataplane.Tables.{Tables, Result, ok, err}
use ai_peer.Dataplane.Faults.{never}
use ai_peer.Dataplane.Usage.{earlier, newer, selected, stored_events, page_size, list_usage_events}

earlier-IsStrictOrder : IsStrictOrder earlier
earlier-IsStrictOrder = record {
  irrefl = earlier_irrefl;
  trans = earlier_trans;
  cotrans = earlier_cotrans;
}
  where
    earlier_irrefl : (a : Option ℤ) → earlier a a ≡ false
    earlier_irrefl none = refl
    earlier_irrefl (some x) = ground arith

    earlier_trans :
        (a b c : Option ℤ) → earlier a b ≡ true → earlier b c ≡ true → earlier a c ≡ true
    earlier_trans none none c h k = absurd (false≢true h)
    earlier_trans none (some y) none h k = k
    earlier_trans none (some y) (some z) h k = refl
    earlier_trans (some x) none c h k = absurd (false≢true h)
    earlier_trans (some x) (some y) none h k = k
    earlier_trans (some x) (some y) (some z) h k = grind int_laws

    earlier_cotrans :
        (a b c : Option ℤ) → earlier a c ≡ true → (earlier a b ≡ true) ⊎ (earlier b c ≡ true)
    earlier_cotrans none none c h = inr h
    earlier_cotrans none (some y) c h = inl refl
    earlier_cotrans (some x) b none h = absurd (false≢true h)
    earlier_cotrans (some x) none (some z) h = inr refl
    earlier_cotrans (some x) (some y) (some z) h = elim (Bool-cases (ltb_ℤ x y)) [
      | inl e ↦ inl e
      | inr e ↦ inr (grind int_laws)
    ]

newer-IsStrictOrder : IsStrictOrder newer
newer-IsStrictOrder = record {
  irrefl = λ a. earlier-IsStrictOrder.irrefl a.created_at;
  trans = λ a b c h k. earlier-IsStrictOrder.trans c.created_at b.created_at a.created_at k h;
  cotrans = λ a b c h.
      elim (earlier-IsStrictOrder.cotrans c.created_at b.created_at a.created_at h) [
        | inl k ↦ inr k
        | inr k ↦ inl k
      ];
}

module _ {A : Type 0} where
  length-take-le : (n : ℕ) (xs : List A) → length (take n xs) ≤ n
  length-take-le zero xs = omega arith
  length-take-le (suc n) [] = omega arith
  length-take-le (suc n) (x ∷ xs) = omega (arith, length-take-le n xs)

  In-take : (n : ℕ) (xs : List A) (a : A) → In a (take n xs) → In a xs
  In-take zero xs a h = absurd h
  In-take (suc n) [] a h = absurd h
  In-take (suc n) (x ∷ xs) a (inl e) = inl e
  In-take (suc n) (x ∷ xs) a (inr h) = inr (In-take n xs a h)

  All-take : (P : A → Type 0) (n : ℕ) (xs : List A) → All P xs → All P (take n xs)
  All-take P zero xs h = tt
  All-take P (suc n) [] h = tt
  All-take P (suc n) (x ∷ xs) (p, h) = (p, All-take P n xs h)

  take-Sorted :
      (less : A → A → Bool) (n : ℕ) (xs : List A) → Sorted less xs → Sorted less (take n xs)
  take-Sorted less zero xs h = tt
  take-Sorted less (suc n) [] h = tt
  take-Sorted less (suc n) (x ∷ xs) (p, h) =
      (All-take (λ y. less y x ≡ false) n xs p, take-Sorted less n xs h)

  In-All : (P : A → Type 0) (xs : List A) (a : A) → All P xs → In a xs → P a
  In-All P [] a h k = absurd k
  In-All P (x ∷ xs) a (p, h) (inl e) = rw e p
  In-All P (x ∷ xs) a (p, h) (inr k) = In-All P xs a h k

  All_of_In : (P : A → Type 0) (xs : List A) → ((a : A) → In a xs → P a) → All P xs
  All_of_In P [] h = tt
  All_of_In P (x ∷ xs) h = (h x (inl refl), All_of_In P xs (λ a k. h a (inr k)))

  -- What is left out comes after what is taken.
  left_out :
      (less : A → A → Bool) (n : ℕ) (xs : List A) (a : A)
      → Sorted less xs
      → In a xs
      → In a (take n xs) ⊎ ((length (take n xs) ≡ n) × All (λ y. less a y ≡ false) (take n xs))
  left_out less zero xs a h k = inr (refl, tt)
  left_out less (suc n) [] a h k = absurd k
  left_out less (suc n) (x ∷ xs) a (p, h) (inl e) = inl (inl e)
  left_out less (suc n) (x ∷ xs) a (p, h) (inr k) = elim (left_out less n xs a h k) [
    | inl q ↦ inl (inr q)
    | inr (l, q) ↦ inr (ap suc l, (In-All (λ y. less y x ≡ false) xs a p k, q))
  ]

  In-keep : (p : A → Bool) (xs : List A) (a : A) → In a (keep p xs) ↔ (In a xs × (p a ≡ true))
  In-keep p [] a = (λ h. absurd h, λ h. h.0)
  In-keep p (x ∷ xs) a =
      let (there, back) = In-keep p xs a in
      elim (Bool-cases (p x)) [
        | inl e ↦ rw e (
          λ h. elim h [ inl q ↦ (inl q, ap p q ∙ e) | inr k ↦ (inr (there k).0, (there k).1) ],
          λ h. elim h.0 [ inl q ↦ inl q | inr k ↦ inr (back (k, h.1)) ],
        )
        | inr e ↦ rw e (
          λ h. (inr (there h).0, (there h).1),
          λ h. elim h.0 [
            | inl q ↦ absurd (false≢true (sym e ∙ sym (ap p q) ∙ h.1))
            | inr k ↦ back (k, h.1)
          ],
        )
      ]

module _ (filter : UsageListFilter) (t : Tables) where
  matches : List UsageEvent
  matches = sort_by newer (keep (selected filter) (stored_events t.usage))

  In-matches :
      (e : UsageEvent) → In e matches ↔ (In e (stored_events t.usage) × (selected filter e ≡ true))
  unfolding matches
  In-matches e =
      let found = keep (selected filter) (stored_events t.usage) in
      (
        λ h.
            (In-keep (selected filter) (stored_events t.usage) e).0
              ((In-sort_by newer e found).0 h),
        λ h.
            (In-sort_by newer e found).1
              ((In-keep (selected filter) (stored_events t.usage) e).1 h),
      )

-- The event is of the filter's consumer and provider, where it names them.
abbrev pub Passes : UsageListFilter → UsageEvent → Type 0
Passes filter e =
    ((filter.consumer_id ≡ "") ⊎ (e.consumer_id ≡ filter.consumer_id))
    × ((filter.provider_id ≡ "") ⊎ (e.provider_id ≡ filter.provider_id))

-- The first time is not before the second; an event that has no time is older than all that have one.
abbrev pub NotBefore : Option ℤ → Option ℤ → Type 0
NotBefore a none = Unit
NotBefore none (some y) = ⊥
NotBefore (some x) (some y) = y ≤ℤ x

abbrev pub NewestFirst : List UsageEvent → Type 0
NewestFirst [] = Unit
NewestFirst (e ∷ es) = All (λ x. NotBefore e.created_at x.created_at) es × NewestFirst es

-- A page has `n` rows at most: the limit, or a hundred where that is not positive.
abbrev pub Size : UsageListFilter → ℕ → Type 0
Size filter n = ((filter.limit ≡ pos n) × (1 ≤ n)) ⊎ ((filter.limit ≤ℤ pos 0) × (n ≡ 100))

-- What the listing answers, where a page has `n` rows at most.
abbrev pub Lists : UsageListFilter → ℕ → Tables → List UsageEvent → Type 0
Lists filter n t page =
    NewestFirst page
    × (length page ≤ n)
    × All (λ e. In e (stored_events t.usage) × Passes filter e) page
    × All
        (λ e.
          (¬ Passes filter e)
          ⊎ In e page
          ⊎ ((length page ≡ n) × All (λ x. NotBefore x.created_at e.created_at) page))
        (stored_events t.usage)

abbrev rows : List UsageEvent → Result (List UsageEvent) → List UsageEvent
rows default (ok events) = events
rows default (err e) = default

selected_iff :
    (filter : UsageListFilter) (e : UsageEvent) → (selected filter e ≡ true) ↔ Passes filter e
selected_iff filter e = ground (
  arith,
  eq_iff filter.consumer_id "",
  eq_iff e.consumer_id filter.consumer_id,
  eq_iff filter.provider_id "",
  eq_iff e.provider_id filter.provider_id,
)

not_earlier : (a b : Option ℤ) → earlier a b ≡ false → NotBefore a b
not_earlier none none h = tt
not_earlier (some x) none h = tt
not_earlier none (some y) h = absurd (false≢true (sym h))
not_earlier (some x) (some y) h = grind int_laws

module _ {P Q : UsageEvent → Type 0} (f : (e : UsageEvent) → P e → Q e) where
  All-map : (es : List UsageEvent) → All P es → All Q es
  All-map [] h = tt
  All-map (e ∷ es) (p, h) = (f e p, All-map es h)

newest_first : (es : List UsageEvent) → Sorted newer es → NewestFirst es
newest_first [] h = tt
newest_first (e ∷ es) (p, h) =
    (All-map (λ x. not_earlier e.created_at x.created_at) es p, newest_first es h)

page_size_lem : (filter : UsageListFilter) (n : ℕ) → Size filter n → page_size filter ≡ n
page_size_lem filter n h = ground arith

-- A listing has only stored events of the consumer and the provider that the filter names, the newest
-- first, and at most the limit, or a hundred where the limit is not positive. A stored event of theirs
-- is in it, unless it is full of events that are no older.
pub list_usage_events_lem :
    (filter : UsageListFilter) (n : ℕ) (t : Tables) (page : List UsageEvent)
    → Size filter n
    → list_usage_events never filter t ≡ ok page
    → Lists filter n t page
unfolding list_usage_events matches
list_usage_events_lem filter n t page size h =
    let found = matches filter t in
    let ordered : Sorted newer found = Sorted-sort_by newer newer-IsStrictOrder _ in
    let q : take n found ≡ page =
      ap (λ m. take m found) (sym (page_size_lem filter n size)) ∙ ap (rows page) h in
    subst (Lists filter n t) q (
      newest_first (take n found) (take-Sorted newer n found ordered),
      length-take-le n found,
      All_of_In _ _ (λ e k.
          let (stored, p) = (In-matches filter t e).0 (In-take n found e k) in
          (stored, (selected_iff filter e).0 p)),
      All_of_In _ _ (λ e k. elim (Bool-cases (selected filter e)) [
        | inr p ↦ inl (λ passes. false≢true (sym p ∙ (selected_iff filter e).1 passes))
        | inl p ↦ inr (elim (left_out newer n found e ordered ((In-matches filter t e).1 (k, p))) [
          | inl m ↦ inl m
          | inr (full, older) ↦
              inr (full, All-map (λ x. not_earlier x.created_at e.created_at) (take n found) older)
        ])
      ]),
    )
