-- ===== src/Registry/Listing.antt =====
-- What `List` and `NodesForModel` return.
use mathlib.Core.List.{Permᴰ}
use mathlib.Core.List.Permᴰ
use mathlib.Core.Bool.{false≢true}
use ai_peer.Base.{
  String, ◌≡◌, refl, ap, sym, ◌∙◌, ◌≢◌, ◌↔◌, ◌⊎◌, inl, inr, Bool, true, false, List, [], ◌∷◌, arith,
  Map, Distinct, Absent, All, In, Every, Bool-cases, if◌then◌else◌, ◌==◌, string_eq, any,
  IsStrictOrder, Sorted, Sorted-sort_by, In-sort_by, sort_by-perm, AllApart, Apart, ltb_str,
  ltb_str_total,
}
use text.Mathlib.TextEquality.{eq_iff}
use ai_peer.Registry.{
  Registry, NodeRecord, by_node_id, records, advertises, matching, nodes_for_model, list_nodes,
  clone_record,
}
use ai_peer.Registry.Invariant.{IsValid, IsFiled, ltb_str-IsStrictOrder}

pub by_node_id-IsStrictOrder : IsStrictOrder by_node_id
by_node_id-IsStrictOrder = record {
  irrefl = λ a. ltb_str-IsStrictOrder.irrefl a.node_id;
  trans = λ a b c. ltb_str-IsStrictOrder.trans a.node_id b.node_id c.node_id;
  cotrans = λ a b c. ltb_str-IsStrictOrder.cotrans a.node_id b.node_id c.node_id;
}

any-In :
    (model : String) (models : List String)
    → (any (λ m. m == model) models ≡ true) ↔ In model models
any-In model [] = ground arith
any-In model (m ∷ models) = ground (arith, any-In model models, eq_iff m model)

In-matching :
    (model : String) (rec : NodeRecord) (recs : List NodeRecord)
    → In rec (matching model recs) ↔ ((model ≢ "") × In model rec.models × In rec recs)
unfolding matching
In-matching model rec [] = (λ h. absurd h, λ h. h.2)
In-matching model rec (x ∷ recs) =
    let ih = In-matching model rec recs in
    elim (Bool-cases (model == "")) [
      | inl e ↦
          let blank : model ≡ "" = (eq_iff model "").0 e in
          rw e (λ h. absurd ((ih.0 h).0 blank), λ h. absurd (h.0 blank))
      | inr e ↦
          let named : model ≢ "" = λ q. cc (e, (eq_iff model "").1 q) in
          rw e (elim (Bool-cases (advertises model x)) [
            | inl f ↦ rw f (
              λ h. elim h [
                | inl q ↦ (named, rw q ((any-In model x.models).0 f), inl q)
                | inr k ↦ ((ih.0 k).0, (ih.0 k).1, inr (ih.0 k).2)
              ],
              λ h. elim h.2 [ inl q ↦ inl q | inr k ↦ inr (ih.1 (h.0, h.1, k)) ],
            )
            | inr f ↦ rw f (
              λ h. ((ih.0 h).0, (ih.0 h).1, inr (ih.0 h).2),
              λ h. elim h.2 [
                | inl q ↦
                    let m : In model x.models = rw q at h.1 in
                    absurd (false≢true (sym f ∙ (any-In model x.models).1 m))
                | inr k ↦ ih.1 (h.0, h.1, k)
              ],
            )
          ])
    ]

-- For every model name, `NodesForModel` lists exactly the known records that advertise it, and none
-- for the empty name, in the order of their node ids; `List` lists every known record in that order.
pub nodes_for_model_iff :
    (model : String) (r : Registry) (rec : NodeRecord)
    → (In rec (nodes_for_model model r)
        ↔ ((model ≢ "") × In model rec.models × In rec (records r.nodes)))
      × Sorted by_node_id (nodes_for_model model r)
      × (In rec (list_nodes r) ↔ In rec (records r.nodes))
      × Sorted by_node_id (list_nodes r)
unfolding nodes_for_model list_nodes
nodes_for_model_iff model r rec = (
  (
    λ h.
        (In-matching model rec (records r.nodes)).0
          ((In-sort_by by_node_id rec (matching model (records r.nodes))).0 h),
    λ h.
        (In-sort_by by_node_id rec (matching model (records r.nodes))).1
          ((In-matching model rec (records r.nodes)).1 h),
  ),
  Sorted-sort_by by_node_id by_node_id-IsStrictOrder (matching model (records r.nodes)),
  In-sort_by by_node_id rec (records r.nodes),
  Sorted-sort_by by_node_id by_node_id-IsStrictOrder (records r.nodes),
)

apart_of_ne : (a b : String) → a ≢ b → (ltb_str a b ≡ true) ⊎ (ltb_str b a ≡ true)
apart_of_ne a b ne = elim (Bool-cases (ltb_str a b)) [
  | inl p ↦ inl p
  | inr p ↦ elim (Bool-cases (ltb_str b a)) [
    | inl q ↦ inr q
    | inr q ↦ absurd (ne (ltb_str_total a b p q))
  ]
]

All-Apart :
    (rec : NodeRecord) (m : Map NodeRecord)
    → Absent rec.node_id m
    → Every IsFiled m
    → All (λ y. Apart by_node_id rec y) (records m)
All-Apart rec [] a f = tt
All-Apart rec ((j, x) ∷ m) (ne, a) (f, fs) =
    (apart_of_ne rec.node_id x.node_id (λ e. ne (sym f.named ∙ sym e)), All-Apart rec m a fs)

AllApart-records :
    (m : Map NodeRecord) → Distinct m → Every IsFiled m → AllApart by_node_id (records m)
AllApart-records [] d f = tt
AllApart-records ((j, x) ∷ m) (a, d) (f, fs) =
    (All-Apart (clone_record x) m (rw (f.named) a) fs, AllApart-records m d fs)

records-perm : {m m' : Map NodeRecord} → Permᴰ m m' → Permᴰ (records m) (records m')
records-perm Permᴰ.nil = Permᴰ.nil
records-perm (Permᴰ.cons e p) = Permᴰ.cons (ap (λ x. clone_record (x.1)) e) (records-perm p)
records-perm (Permᴰ.swap e f) =
    Permᴰ.swap (ap (λ x. clone_record (x.1)) e) (ap (λ x. clone_record (x.1)) f)
records-perm (Permᴰ.trans p q) = Permᴰ.trans (records-perm p) (records-perm q)

-- `matching` keeps the elements that pass one test.
passes : String → NodeRecord → Bool
passes model rec = if model == "" then false else advertises model rec

matching-cons :
    (model : String) (x : NodeRecord) (xs : List NodeRecord)
    → matching model (x ∷ xs)
      ≡ (if passes model x then x ∷ matching model xs else matching model xs)
unfolding matching passes
matching-cons model x xs = ground arith

abbrev keep_if : Bool → NodeRecord → List NodeRecord → List NodeRecord
keep_if b x xs = if b then x ∷ xs else xs

keep_if-perm :
    (b : Bool) (x : NodeRecord) {xs ys : List NodeRecord}
    → Permᴰ xs ys
    → Permᴰ (keep_if b x xs) (keep_if b x ys)
keep_if-perm true x p = Permᴰ.cons refl p
keep_if-perm false x p = p

keep_if-swap :
    (b c : Bool) (x y : NodeRecord) (xs : List NodeRecord)
    → Permᴰ (keep_if b x (keep_if c y xs)) (keep_if c y (keep_if b x xs))
keep_if-swap true true x y xs = Permᴰ.swap refl refl
keep_if-swap true false x y xs = Permᴰ.refl _
keep_if-swap false true x y xs = Permᴰ.refl _
keep_if-swap false false x y xs = Permᴰ.refl _

matching-perm :
    (model : String) {xs ys : List NodeRecord}
    → Permᴰ xs ys
    → Permᴰ (matching model xs) (matching model ys)
matching-perm model Permᴰ.nil = Permᴰ.refl _
matching-perm model (Permᴰ.cons {a} {b} {l₁} {l₂} e p) =
    rw (← e, matching-cons model a l₁, matching-cons model a l₂)
      (keep_if-perm (passes model a) a (matching-perm model p))
matching-perm model (Permᴰ.swap {a} {b} {a'} {b'} {l} e f) =
    rw (← e, ← f)
      (simp (matching-cons model)
        (keep_if-swap (passes model a) (passes model b) a b (matching model l)))
matching-perm model (Permᴰ.trans p q) = Permᴰ.trans (matching-perm model p) (matching-perm model q)

All-matching :
    (P : NodeRecord → Type 0) (model : String) (xs : List NodeRecord)
    → All P xs
    → All P (matching model xs)
unfolding matching
All-matching P model [] h = tt
All-matching P model (x ∷ xs) (p, h) =
    rw (matching-cons model x xs) (elim (Bool-cases (passes model x)) [
      | inl e ↦ rw e (p, All-matching P model xs h)
      | inr e ↦ rw e (All-matching P model xs h)
    ])

AllApart-matching :
    (model : String) (xs : List NodeRecord)
    → AllApart by_node_id xs
    → AllApart by_node_id (matching model xs)
AllApart-matching model [] h = unfold matching in tt
AllApart-matching model (x ∷ xs) (p, h) =
    rw (matching-cons model x xs) (elim (Bool-cases (passes model x)) [
      | inl e ↦ rw e (All-matching (Apart by_node_id x) model xs p, AllApart-matching model xs h)
      | inr e ↦ rw e (AllApart-matching model xs h)
    ])

-- Both listings depend on the records alone, and not on the order in which the map is walked.
pub listing_ignores_map_order :
    (model : String) (r r' : Registry)
    → IsValid r
    → Permᴰ r.nodes r'.nodes
    → (list_nodes r ≡ list_nodes r') × (nodes_for_model model r ≡ nodes_for_model model r')
unfolding list_nodes nodes_for_model
listing_ignores_map_order model r r' v p = (
  sort_by-perm by_node_id by_node_id-IsStrictOrder (records-perm p)
      (AllApart-records r.nodes v.distinct v.filed),
  sort_by-perm by_node_id by_node_id-IsStrictOrder (matching-perm model (records-perm p))
      (AllApart-matching model (records r.nodes) (AllApart-records r.nodes v.distinct v.filed)),
)
