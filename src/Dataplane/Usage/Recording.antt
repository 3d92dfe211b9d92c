-- ===== src/Dataplane/Usage/Recording.antt =====
-- Usage events are recorded once.
use text.Mathlib.TextEquality.{eq_iff}
use mathlib.Core.Bool.{false≢true}
use ai_peer.Base.{
  String, Bool, true, false, ℤ, ℕ, ◌+◌, List, [], ◌∷◌, ◌≡◌, ◌∙◌, sym, ap, subst, refl, arith,
  if◌then◌else◌, ◌==◌, string_eq, All, length, Map, lookup, insert, lookup-insert, is_some,
  Bool-cases, trim_space, inl, inr, ◌⊎◌, none, Option-cases,
}
use ai_peer.Gateway.Records.{UsageEvent}
use ai_peer.Dataplane.Tables.{
  Tables, Outcome, done, failed, Result, ok, err, statement, ◌>>=◌, finish,
}
use ai_peer.Dataplane.Faults.{
  never, is_err, SubM, Sub-bind, Sub-statement, Sub-refl, Sub-choice, Agrees, transaction-Agrees,
}
use ai_peer.Dataplane.Usage.{
  insert_event, insert_events, insert_body, insert_usage_events, stamped, known_gateway_type,
  references,
}

length-insert :
    {V : Type 0} (k : String) (v : V) (m : Map V)
    → length (insert k v m) ≡ (if is_some (lookup k m) then 0 else 1) + length m
unfolding insert lookup
length-insert k v [] = refl
length-insert k v ((j, w) ∷ m) = ground (arith, length-insert k v m)

abbrev is_blank : UsageEvent → Bool
is_blank e = trim_space e.request_id == ""

-- The event has no request id, or is one that the table takes and is there.
abbrev pub Settled : Map UsageEvent → UsageEvent → Type 0
Settled usage e =
    (is_blank e ≡ false)
    → (known_gateway_type e.gateway_type ≡ true) × (is_some (lookup e.request_id usage) ≡ true)

-- What a run of inserts did: rows were only added, as many as it counted.
abbrev Added : Tables → ℕ → Tables → Type 0
Added t n t' =
    (t' ≡ record t { usage = t'.usage })
    × (length t'.usage ≡ length t.usage + n)
    × ((k : String) → is_some (lookup k t.usage) ≡ true → lookup k t'.usage ≡ lookup k t.usage)

abbrev AddedOne : Tables → UsageEvent → Outcome ℕ → Type 0
AddedOne t e (done n t') = Added t n t' × Settled t'.usage e
AddedOne t e (failed message) = Unit

abbrev AddedAll : Tables → List UsageEvent → Outcome ℕ → Type 0
AddedAll t es (done n t') = Added t n t' × All (Settled t'.usage) es
AddedAll t es (failed message) = Unit

insert_event-AddedOne :
    (now : ℤ) (e : UsageEvent) (t : Tables) → AddedOne t e (insert_event never (stamped now e) t)
unfolding insert_event statement
insert_event-AddedOne now e t = elim (Bool-cases (known_gateway_type e.gateway_type)) [
  | inr unknown ↦ rw unknown tt
  | inl known ↦ elim (Bool-cases (is_some (lookup e.request_id t.usage))) [
    | inl there ↦ rw (known, there) ((refl, omega arith, λ k _. refl), λ _. (known, there))
    | inr fresh ↦ elim (Bool-cases (references e t)) [
      | inr dangling ↦ rw (known, fresh, dangling) tt
      | inl held ↦
          rw (known, fresh, held)
            (
              (
                refl,
                ground (arith, length-insert e.request_id (stamped now e) t.usage),
                λ k there. ground (
                  arith,
                  lookup-insert e.request_id k (stamped now e) t.usage,
                  eq_iff e.request_id k,
                ),
              ),
              λ _. (
                known,
                ground (
                  arith,
                  lookup-insert e.request_id e.request_id (stamped now e) t.usage,
                  eq_iff e.request_id e.request_id,
                ),
              ),
            )
    ]
  ]
]

Added-trans : (t t' t'' : Tables) (n m : ℕ) → Added t n t' → Added t' m t'' → Added t (n + m) t''
Added-trans t t' t'' n m (e, l, k) (e', l', k') = (
  e' ∙ ap {A = Tables} (λ x. record x { usage = t''.usage }) e,
  omega (arith, l, l'),
  λ key there. ground (arith, k key there, k' key),
)

Settled-later :
    (t t' : Tables) (n : ℕ) (e : UsageEvent) → Added t n t' → Settled t.usage e → Settled t'.usage e
Settled-later t t' n e (_, _, k) s = λ named. ground (arith, s named, k e.request_id)

insert_events-AddedAll :
    (now : ℤ) (es : List UsageEvent) (t : Tables) → AddedAll t es (insert_events never now es t)
unfolding insert_events ◌>>=◌
insert_events-AddedAll now [] t = ((refl, omega arith, λ k _. refl), tt)
insert_events-AddedAll now (e ∷ es) t = elim (Bool-cases (is_blank e)) [
  | inl blank ↦
      rw blank (skip (insert_events never now es t) blank (insert_events-AddedAll now es t))
  | inr named ↦ rw named (
      first (λ t'. insert_events-AddedAll now es t') (insert_event never (stamped now e) t)
        (insert_event-AddedOne now e t))
]
  where
    skip : (o : Outcome ℕ) → is_blank e ≡ true → AddedAll t es o → AddedAll t (e ∷ es) o
    skip (done n t') blank (a, s) = (a, (λ named. absurd (false≢true (sym named ∙ blank)), s))
    skip (failed message) blank h = tt

    rest :
        (t' : Tables) (n : ℕ) (o : Outcome ℕ)
        → Added t n t'
        → Settled t'.usage e
        → AddedAll t' es o
        → AddedAll t
            (e ∷ es)
            (elim o [ done m t'' ↦ done (n + m) t'' | failed message ↦ failed message ])
    rest t' n (done m t'') a s (a', s') =
        (Added-trans t t' t'' n m a a', (Settled-later t' t'' m e a' s, s'))
    rest t' n (failed message) a s h = tt

    first :
        ((t' : Tables) → AddedAll t' es (insert_events never now es t'))
        → (o : Outcome ℕ) → AddedOne t e o
        → AddedAll t (e ∷ es) (elim o [
          | done n t' ↦ elim (insert_events never now es t') [
            | done m t'' ↦ done (n + m) t''
            | failed message ↦ failed message
          ]
          | failed message ↦ failed message
        ])
    first ih (done n t') (a, s) = rest t' n (insert_events never now es t') a s (ih t')
    first ih (failed message) h = tt

again_lem :
    (now : ℤ) (e : UsageEvent) (t : Tables)
    → known_gateway_type e.gateway_type ≡ true
    → is_some (lookup e.request_id t.usage) ≡ true
    → insert_event never (stamped now e) t ≡ done 0 t
unfolding insert_event statement
again_lem now e t known there = rw (known, there) refl

insert_events_twice :
    (now : ℤ) (es : List UsageEvent) (t : Tables)
    → All (Settled t.usage) es
    → insert_events never now es t ≡ done 0 t
unfolding insert_events insert_event ◌>>=◌ statement
insert_events_twice now [] t h = refl
insert_events_twice now (e ∷ es) t (p, h) = elim (Bool-cases (is_blank e)) [
  | inl blank ↦ rw blank (insert_events_twice now es t h)
  | inr named ↦ rw named (
      after (insert_event never (stamped now e) t) (again_lem now e t (p named).0 (p named).1)
        (insert_events_twice now es t h))
]
  where
    after :
        (o : Outcome ℕ)
        → o ≡ done 0 t
        → insert_events never now es t ≡ done 0 t
        → elim o [
          | done n t' ↦ elim (insert_events never now es t') [
            | done m t'' ↦ done (n + m) t''
            | failed message ↦ failed message
          ]
          | failed message ↦ failed message
        ]
          ≡ done 0 t
    after o q r = rw (q, r) refl

insert_events-Sub :
    (fails : String → Bool) (now : ℤ) (es : List UsageEvent)
    → SubM (insert_events fails now es) (insert_events never now es)
unfolding insert_events insert_event
insert_events-Sub fails now [] = Sub-refl _
insert_events-Sub fails now (e ∷ es) = Sub-choice (is_blank e) (insert_events-Sub fails now es) (
    Sub-bind (Sub-statement fails _ _)
      (λ added. Sub-bind (insert_events-Sub fails now es) (λ more. Sub-refl _)))

insert_body-Sub :
    (fails : String → Bool) (now : ℤ) (es : List UsageEvent)
    → SubM (insert_body fails now es) (insert_body never now es)
unfolding insert_body
insert_body-Sub fails now es =
    search (Sub-bind, Sub-statement, Sub-refl, insert_events-Sub) depth 12

insert_usage_events-Agrees :
    (fails : String → Bool) (now : ℤ) (es : List UsageEvent) (t : Tables)
    → Agrees t (insert_usage_events fails now es t) (insert_usage_events never now es t)
unfolding insert_usage_events
insert_usage_events-Agrees fails now es t =
    transaction-Agrees t _ _ (insert_body-Sub fails now es t)

abbrev committed : Tables → Outcome ℕ → Tables × Result ℕ
committed t (done n t') = (t', ok n)
committed t (failed e) = (t, err e)

insert_usage_lem :
    (now : ℤ) (es : List UsageEvent) (t : Tables)
    → insert_usage_events never now es t ≡ committed t (insert_events never now es t)
unfolding insert_usage_events insert_body statement ◌>>=◌
insert_usage_lem now es t = by_outcome (insert_events never now es t)
  where
    by_outcome :
        (o : Outcome ℕ)
        → finish t (elim o [ done n t' ↦ done (n, true) t' | failed e ↦ failed e ]) ≡ committed t o
    by_outcome (done n t') = refl
    by_outcome (failed e) = refl

abbrev count : Result ℕ → ℕ
count (ok n) = n
count (err e) = 0

committed-Added :
    (es : List UsageEvent) (t t' : Tables) (n : ℕ) (o : Outcome ℕ)
    → AddedAll t es o
    → committed t o ≡ (t', ok n)
    → Added t n t' × All (Settled t'.usage) es
committed-Added es t t' n (done m t'') h q =
    let at_end : t'' ≡ t' = ap (λ x. x.0) q in
    let counted : m ≡ n = ap (λ x. count x.1) q in
    subst (λ x. Added t n x × All (Settled x.usage) es) at_end
      (subst (λ k. Added t k t'' × All (Settled t''.usage) es) counted h)
committed-Added es t t' n (failed e) h q = absurd (false≢true (sym (ap (λ x. is_err x.1) q)))

-- What inserting a list of usage events does when it succeeds, whatever statements may be refused: it
-- changes no other table, it adds as many rows as it counts, and every row that was there stays as it
-- was. Inserting the same events once more succeeds, adds nothing and changes nothing.
pub recorded_once :
    (fails : String → Bool) (now later : ℤ) (es : List UsageEvent) (t t' : Tables) (n : ℕ)
    → insert_usage_events fails now es t ≡ (t', ok n)
    → (t' ≡ record t { usage = t'.usage })
      × (length t'.usage ≡ length t.usage + n)
      × ((k : String) → (lookup k t.usage ≡ none) ⊎ (lookup k t'.usage ≡ lookup k t.usage))
      × (insert_usage_events never later es t' ≡ (t', ok 0))
recorded_once fails now later es t t' n h =
    let q : insert_usage_events fails now es t ≡ insert_usage_events never now es t =
      (insert_usage_events-Agrees fails now es t).1 (ap (λ x. is_err x.1) h) in
    let (a, s) =
      committed-Added es t t' n (insert_events never now es t) (insert_events-AddedAll now es t)
        (sym (insert_usage_lem now es t) ∙ sym q ∙ h) in
    (
      a.0,
      a.1,
      λ k. elim (Option-cases (lookup k t.usage)) [
        | inl gone ↦ inl gone
        | inr (e, found) ↦ inr (a.2 k (ap is_some found))
      ],
      insert_usage_lem later es t' ∙ ap (committed t') (insert_events_twice later es t' s),
    )

-- An insert changes no other table, however it ends.
pub others_kept :
    (fails : String → Bool) (now : ℤ) (es : List UsageEvent) (t : Tables)
    → (insert_usage_events fails now es t).0
      ≡ record t { usage = (insert_usage_events fails now es t).0.usage }
others_kept fails now es t =
    let (on_err, on_ok) = insert_usage_events-Agrees fails now es t in
    elim (Bool-cases (is_err (insert_usage_events fails now es t).1)) [
      | inl e ↦ rw (on_err e) refl
      | inr e ↦
          let q : (insert_usage_events fails now es t).0
              ≡ (committed t (insert_events never now es t)).0 =
            ap (λ x. x.0) (on_ok e ∙ insert_usage_lem now es t) in
          rw q (committed_others (insert_events never now es t) (insert_events-AddedAll now es t))
    ]
  where
    committed_others :
        (o : Outcome ℕ)
        → AddedAll t es o
        → (committed t o).0 ≡ record t { usage = (committed t o).0.usage }
    committed_others (done n t') (a, _) = a.0
    committed_others (failed message) h = refl

pub batches_kept :
    (fails : String → Bool) (now : ℤ) (es : List UsageEvent) (t : Tables)
    → (insert_usage_events fails now es t).0.batches ≡ t.batches
batches_kept fails now es t = ap {A = Tables} (λ x. x.batches) (others_kept fails now es t)

-- The transaction is refused at its start.
abbrev pub refuse_insert : String → Bool
refuse_insert message = message == "begin usage insert tx"

pub insert_refused :
    (now : ℤ) (es : List UsageEvent) (t : Tables)
    → insert_usage_events refuse_insert now es t ≡ (t, err "begin usage insert tx")
unfolding insert_usage_events insert_body statement ◌>>=◌
insert_refused now es t = refl
