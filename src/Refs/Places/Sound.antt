-- ===== src/Refs/Places/Sound.antt =====
-- Each entry that `find_refs` returns stands at its place.
use stpp_connector.Refs.Places.{
  At, AtItem, AtField, here, in_list, in_dict, this, later, named, after, IsRefAt,
}
use stpp_connector.Base.{
  ℕ, suc, ◌≡◌, ap, sym, ◌∙◌, subst, Option, none, some, List, [], ◌∷◌, ◌++◌, append_assoc,
  append-nil, Text, Result, ok, err, All, All-append, Ensures, Ensures-bind, Ensures-bind_eq,
  All-map,
}
use stpp_connector.Json.{
  Value, Items, Fields, null, bool, int, float, str, arr, obj, nil, cons, end, field,
}
use stpp_connector.Refs.Syntax.{Ref, parse_ref}
use stpp_connector.Refs.Accepted.{parse_ref-IsWellFormed}
use stpp_connector.Refs.Find.{
  Place, key, index, Found, ref_at, walk, walk_items, walk_fields, find_refs,
}

abbrev Sound : Value → List Place → List Place × Ref → Type 0
Sound v path (there, ref) =
    (q : List Place) × (there ≡ path ++ q)
    × At v q (str ref.raw)
    × (parse_ref ref.raw ≡ ok (some ref))

abbrev SoundItem : Items → ℕ → List Place → List Place × Ref → Type 0
SoundItem vs i path (there, ref) =
    (q : List Place) × (there ≡ path ++ q)
    × AtItem vs i q (str ref.raw)
    × (parse_ref ref.raw ≡ ok (some ref))

abbrev SoundField : Fields → List Place → List Place × Ref → Type 0
SoundField fs path (there, ref) =
    (q : List Place) × (there ≡ path ++ q)
    × AtField fs q (str ref.raw)
    × (parse_ref ref.raw ≡ ok (some ref))

Sound-ref_at :
    (s : Text) (path : List Place) (o : Option Ref)
    → parse_ref s ≡ ok o
    → All (Sound (str s) path) (ref_at path o)
Sound-ref_at s path none e = tt
Sound-ref_at s path (some ref) e =
    let same : ref.raw ≡ s = (parse_ref-IsWellFormed s ref e).is_raw in
    (
      (
        [],
        sym (append-nil path),
        subst (λ t. At (str s) [] (str t)) (sym same) here,
        ap parse_ref same ∙ e,
      ),
      tt,
    )

item_first :
    (v : Value) (vs : Items) (i : ℕ) (path : List Place) (x : List Place × Ref)
    → Sound v (path ++ index i ∷ []) x
    → SoundItem (cons v vs) i path x
item_first v vs i path (there, ref) (q, e, at, read) =
    (index i ∷ q, e ∙ append_assoc path (index i ∷ []) q, this at, read)

item_later :
    (v : Value) (vs : Items) (i : ℕ) (path : List Place) (x : List Place × Ref)
    → SoundItem vs (suc i) path x
    → SoundItem (cons v vs) i path x
item_later v vs i path (there, ref) (q, e, at, read) = (q, e, later at, read)

field_first :
    (k : Text) (v : Value) (fs : Fields) (path : List Place) (x : List Place × Ref)
    → Sound v (path ++ key k ∷ []) x
    → SoundField (field k v fs) path x
field_first k v fs path (there, ref) (q, e, at, read) =
    (key k ∷ q, e ∙ append_assoc path (key k ∷ []) q, named at, read)

field_after :
    (k : Text) (v : Value) (fs : Fields) (path : List Place) (x : List Place × Ref)
    → SoundField fs path x
    → SoundField (field k v fs) path x
field_after k v fs path (there, ref) (q, e, at, read) = (q, e, after at, read)

in_dict_too :
    (fs : Fields) (path : List Place) (x : List Place × Ref)
    → SoundField fs path x
    → Sound (obj fs) path x
in_dict_too fs path (there, ref) (q, e, at, read) = (q, e, in_dict at, read)

in_list_too :
    (vs : Items) (path : List Place) (x : List Place × Ref)
    → SoundItem vs 0 path x
    → Sound (arr vs) path x
in_list_too vs path (there, ref) (q, e, at, read) = (q, e, in_list at, read)

Ensures-All {ℓ} :
    {A E : Type 0} (P Q : A → Type ℓ) (m : Result E (List A))
    → ((a : A) → P a → Q a)
    → Ensures (All P) m
    → Ensures (All Q) m
Ensures-All P Q (ok xs) f h = All-map P Q xs f h
Ensures-All P Q (err e) f h = tt

mutual
  unfolding walk

  walk-Sound : (v : Value) (path : List Place) → Ensures (All (Sound v path)) (walk v path)
  walk-Sound (obj fs) path =
      Ensures-All (SoundField fs path) (Sound (obj fs) path) (walk_fields fs path)
        (in_dict_too fs path) (walk_fields-Sound fs path)
  walk-Sound (arr vs) path =
      Ensures-All (SoundItem vs 0 path) (Sound (arr vs) path) (walk_items vs path 0)
        (in_list_too vs path) (walk_items-Sound vs path 0)
  walk-Sound (str s) path =
      Ensures-bind_eq (All (Sound (str s) path)) (parse_ref s) _ (Sound-ref_at s path)
  walk-Sound null path = tt
  walk-Sound (bool b) path = tt
  walk-Sound (int z) path = tt
  walk-Sound (float t) path = tt

  walk_items-Sound :
      (vs : Items) (path : List Place) (i : ℕ)
      → Ensures (All (SoundItem vs i path)) (walk_items vs path i)
  walk_items-Sound nil path i = tt
  walk_items-Sound (cons v vs) path i =
      Ensures-bind (All (Sound v (path ++ index i ∷ []))) (All (SoundItem (cons v vs) i path))
        (walk v (path ++ index i ∷ [])) _ (walk-Sound v (path ++ index i ∷ []))
        λ found h.
          Ensures-bind (All (SoundItem vs (suc i) path)) (All (SoundItem (cons v vs) i path))
            (walk_items vs path (suc i)) _ (walk_items-Sound vs path (suc i))
            λ more k.
              All-append (SoundItem (cons v vs) i path) found more
                (All-map (Sound v (path ++ index i ∷ [])) (SoundItem (cons v vs) i path) found
                  (item_first v vs i path) h)
                (All-map (SoundItem vs (suc i) path) (SoundItem (cons v vs) i path) more
                  (item_later v vs i path) k)

  walk_fields-Sound :
      (fs : Fields) (path : List Place) → Ensures (All (SoundField fs path)) (walk_fields fs path)
  walk_fields-Sound end path = tt
  walk_fields-Sound (field k v fs) path =
      Ensures-bind (All (Sound v (path ++ key k ∷ []))) (All (SoundField (field k v fs) path))
        (walk v (path ++ key k ∷ [])) _ (walk-Sound v (path ++ key k ∷ []))
        λ found h.
          Ensures-bind (All (SoundField fs path)) (All (SoundField (field k v fs) path))
            (walk_fields fs path) _ (walk_fields-Sound fs path)
            λ more l.
              All-append (SoundField (field k v fs) path) found more
                (All-map (Sound v (path ++ key k ∷ [])) (SoundField (field k v fs) path) found
                  (field_first k v fs path) h)
                (All-map (SoundField fs path) (SoundField (field k v fs) path) more
                  (field_after k v fs path) l)

pub find_refs-Sound :
    (args : Value) (found : Found)
    → find_refs args ≡ ok found
    → All (λ (path, ref). IsRefAt args path ref) found
unfolding find_refs
find_refs-Sound args found e =
    All-map (Sound args []) (λ (path, ref). IsRefAt args path ref) found (unprefixed args)
      (subst (Ensures (All (Sound args []))) e (walk-Sound args []))
  where
    unprefixed : (v : Value) (x : List Place × Ref) → Sound v [] x → IsRefAt v x.0 x.1
    unprefixed v (there, ref) (q, e, at, read) =
        (subst (λ p. At v p (str ref.raw)) (sym e) at, read)
