-- ===== src/Gateway/Models/Listed.antt =====
-- Which models are listed, and in which order.
use ai_peer.Gateway.Proxy.{Proxy}
use ai_peer.Registry.{NodeRecord, Registry, list_nodes}
use ai_peer.Base.{
  String, true, List, [], ◌∷◌, map, All, In, ◌≡◌, ◌≢◌, ◌↔◌, inl, inr, arith, Bool-cases, ◌==◌,
  string_eq, any, trim_space, insert_by, sort_by, In-sort_by, All-insert_by, ltb_str, ltb_str_total,
  ◌⊎◌, Option, some, refl, none,
}
use text.Mathlib.TextEquality.{eq_iff}
use ai_peer.Registry.Invariant.{ltb_str-IsStrictOrder}
use ai_peer.Gateway.Models.{
  see, see_models, see_registry, see_tags, handle_models, see_records, Tag, tag_id, tagged,
  models_listed,
}

-- Each is before all that come after it.
abbrev pub Rising : List String → Type 0
Rising [] = Unit
Rising (x ∷ xs) = All (λ y. ltb_str x y ≡ true) xs × Rising xs

abbrev Apart : List String → Type 0
Apart [] = Unit
Apart (x ∷ xs) = (In x xs → ⊥) × Apart xs

All-after :
    (x y : String) (ys : List String)
    → ltb_str x y ≡ true
    → All (λ z. ltb_str y z ≡ true) ys
    → All (λ z. ltb_str x z ≡ true) ys
All-after x y [] l h = tt
All-after x y (z ∷ ys) l (p, h) = (ltb_str-IsStrictOrder.trans x y z l p, All-after x y ys l h)

insert_by-Rising :
    (x : String) (xs : List String) → (In x xs → ⊥) → Rising xs → Rising (insert_by ltb_str x xs)
unfolding insert_by
insert_by-Rising x [] ne h = (tt, tt)
insert_by-Rising x (y ∷ ys) ne (a, h) = elim (Bool-cases (ltb_str y x)) [
  | inl e ↦ rw e (
    All-insert_by (λ z. ltb_str y z ≡ true) ltb_str x ys e a,
    insert_by-Rising x ys (λ k. ne (inr k)) h,
  )
  | inr e ↦ elim (Bool-cases (ltb_str x y)) [
    | inl l ↦ rw e ((l, All-after x y ys l a), (a, h))
    | inr g ↦ absurd (ne (inl (ltb_str_total x y g e)))
  ]
]

sort_by-Rising : (xs : List String) → Apart xs → Rising (sort_by ltb_str xs)
unfolding sort_by
sort_by-Rising [] h = tt
sort_by-Rising (x ∷ xs) (ne, h) =
    insert_by-Rising x (sort_by ltb_str xs) (λ k. ne ((In-sort_by ltb_str x xs).0 k))
      (sort_by-Rising xs h)

any-In : (id : String) (seen : List String) → (any (λ k. k == id) seen ≡ true) ↔ In id seen
any-In id [] = ground arith
any-In id (x ∷ seen) = ground (arith, any-In id seen, eq_iff x id)

see-Apart : (raw : String) (seen : List String) → Apart seen → Apart (see raw seen)
unfolding see
see-Apart raw seen h = elim (Bool-cases (trim_space raw == "")) [
  | inl e ↦ rw e h
  | inr e ↦ elim (Bool-cases (any (λ k. k == trim_space raw) seen)) [
    | inl k ↦ rw (e, k) h
    | inr k ↦ rw (e, k) ((λ m. cc ((any-In (trim_space raw) seen).1 m, k)), h)
  ]
]

-- The name of a model that is listed.
abbrev pub Named : String → List String → Type 0
Named id raws = (id ≢ "") × In id (map trim_space raws)

see_lem :
    (id raw : String) (seen : List String)
    → In id (see raw seen) ↔ (((id ≢ "") × (id ≡ trim_space raw)) ⊎ In id seen)
unfolding see
see_lem id raw seen = grind (arith, any-In (trim_space raw) seen, eq_iff (trim_space raw) "")

see_models-Apart : (models seen : List String) → Apart seen → Apart (see_models models seen)
unfolding see_models
see_models-Apart [] seen h = h
see_models-Apart (model ∷ models) seen h =
    see_models-Apart models (see model seen) (see-Apart model seen h)

see_models_lem :
    (id : String) (models seen : List String)
    → In id (see_models models seen) ↔ (Named id models ⊎ In id seen)
unfolding see_models
see_models_lem id [] seen = ground arith
see_models_lem id (model ∷ models) seen =
    ground (arith, see_models_lem id models (see model seen), see_lem id model seen)

see_tags-Apart : (tags : List Tag) (seen : List String) → Apart seen → Apart (see_tags tags seen)
unfolding see_tags
see_tags-Apart [] seen h = h
see_tags-Apart (t ∷ tags) seen h =
    see_tags-Apart tags (see (tag_id t) seen) (see-Apart (tag_id t) seen h)

see_tags_lem :
    (id : String) (tags : List Tag) (seen : List String)
    → In id (see_tags tags seen) ↔ (Named id (map tag_id tags) ⊎ In id seen)
unfolding see_tags
see_tags_lem id [] seen = ground arith
see_tags_lem id (t ∷ tags) seen =
    ground (arith, see_tags_lem id tags (see (tag_id t) seen), see_lem id (tag_id t) seen)

see_records-Apart :
    (recs : List NodeRecord) (seen : List String) → Apart seen → Apart (see_records recs seen)
unfolding see_records
see_records-Apart [] seen h = h
see_records-Apart (rec ∷ recs) seen h =
    see_records-Apart recs (see_models rec.models seen) (see_models-Apart rec.models seen h)

-- Some node of the list has the model.
abbrev pub SomeHas : String → List NodeRecord → Type 0
SomeHas id [] = ⊥
SomeHas id (rec ∷ recs) = Named id rec.models ⊎ SomeHas id recs

see_records_lem :
    (id : String) (recs : List NodeRecord) (seen : List String)
    → In id (see_records recs seen) ↔ (SomeHas id recs ⊎ In id seen)
unfolding see_records
see_records_lem id [] seen = ground arith
see_records_lem id (rec ∷ recs) seen =
    ground (
      arith,
      see_records_lem id recs (see_models rec.models seen),
      see_models_lem id rec.models seen,
    )

abbrev pub nodes_of : Option Registry → List NodeRecord
nodes_of none = []
nodes_of (some reg) = list_nodes reg

see_registry-Apart :
    (reg : Option Registry) (seen : List String) → Apart seen → Apart (see_registry reg seen)
unfolding see_registry
see_registry-Apart none seen h = h
see_registry-Apart (some reg) seen h = see_records-Apart (list_nodes reg) seen h

see_registry_lem :
    (id : String) (reg : Option Registry) (seen : List String)
    → In id (see_registry reg seen) ↔ (SomeHas id (nodes_of reg) ⊎ In id seen)
unfolding see_registry
see_registry_lem id none seen = ground arith
see_registry_lem id (some reg) seen = see_records_lem id (list_nodes reg) seen

-- With the local backend on and its tags read, the listing has, in rising order and so without
-- repetitions, exactly the names up to surrounding spaces, other than the empty one, of a tag, or of its
-- model where it has no name, and of the models of the registry's nodes.
pub handle_models_lem :
    {S : Type 0} (p : Proxy S) (reg : Option Registry) (tags : List Tag)
    → p.local_backend_enabled ≡ true
    → (ids : List String) × (handle_models p reg (tagged tags) ≡ models_listed ids)
      × Rising ids
      × ((id : String) → In id ids ↔ (SomeHas id (nodes_of reg) ⊎ Named id (map tag_id tags)))
unfolding handle_models
handle_models_lem p reg tags on =
    let seen = see_registry reg (see_tags tags []) in
    (
      sort_by ltb_str seen,
      rw on refl,
      sort_by-Rising seen (see_registry-Apart reg (see_tags tags []) (see_tags-Apart tags [] tt)),
      λ id. ground (
        arith,
        In-sort_by ltb_str id seen,
        see_registry_lem id reg (see_tags tags []),
        see_tags_lem id tags [],
      ),
    )
