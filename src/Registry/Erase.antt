-- ===== src/Registry/Erase.antt =====
-- Rendering changes descriptions only.
use stpp_connector.Base.{
  ◌≡◌, refl, ap, ap₂, ◌∙◌, Bool, true, false, Option, none, some, List, [], Text, codes, text_eq,
  text_eq_refl, lookup_text, Bool-cases, inl, inr, if◌then◌else◌,
}
use stpp_connector.Json.{
  Value, Items, Fields, null, bool, int, float, str, arr, obj, nil, cons, end, field, get_field,
  put_field,
}
use stpp_connector.Registry.{
  Observed, is_observed, describe, described, annotate, annotate_each, annotate_under,
  render_observed, render_items, render_fields,
}

-- The value without the entries "description" of its dicts.
unfoldable mutual
  pub erase : Value → Value
  erase (obj fs) = obj (erase_fields fs)
  erase (arr vs) = arr (erase_items vs)
  erase v = v

  pub erase_items : Items → Items
  erase_items nil = nil
  erase_items (cons v vs) = cons (erase v) (erase_items vs)

  pub erase_fields : Fields → Fields
  erase_fields end = end
  erase_fields (field k v fs) =
      let rest = erase_fields fs in
      if text_eq k (codes "description") then rest else field k (erase v) rest

erase-put_description :
    (t : Text) (fs : Fields)
    → erase_fields (put_field (codes "description") (str t) fs) ≡ erase_fields fs
unfolding erase_fields put_field
erase-put_description t end = unfold text_eq in refl
erase-put_description t (field k v fs) = elim (Bool-cases (text_eq k (codes "description"))) [
  | inl e ↦ rw e (rw (text_eq_refl (codes "description")) refl)
  | inr e ↦ rw e (rw e (ap (field k (erase v)) (erase-put_description t fs)))
]

erase-describe :
    (prop : Fields) (values : List Text) → erase_fields (describe prop values) ≡ erase_fields prop
unfolding describe
erase-describe prop values = by_description (get_field (codes "description") prop)
  where
    by_description :
        (o : Option Value)
        → erase_fields (elim o [
          | none ↦ put_field (codes "description") (str (described [] values)) prop
          | some (str old) ↦ put_field (codes "description") (str (described old values)) prop
          | some v ↦ prop
        ])
          ≡ erase_fields prop
    by_description none = erase-put_description _ prop
    by_description (some (str old)) = erase-put_description _ prop
    by_description (some null) = refl
    by_description (some (bool b)) = refl
    by_description (some (int z)) = refl
    by_description (some (float t)) = refl
    by_description (some (arr vs)) = refl
    by_description (some (obj fs)) = refl

erase-annotate :
    (name : Text) (v : Value) (observed : Observed) → erase (annotate name v observed) ≡ erase v
unfolding annotate erase
erase-annotate name null observed = refl
erase-annotate name (bool b) observed = refl
erase-annotate name (int z) observed = refl
erase-annotate name (float t) observed = refl
erase-annotate name (str s) observed = refl
erase-annotate name (arr vs) observed = refl
erase-annotate name (obj prop) observed = by_values (lookup_text name observed) (is_observed prop)
  where
    by_values :
        (o : Option (List Text)) (b : Bool)
        → erase (elim o [
          | none ↦ obj prop
          | some values ↦ if b then obj (describe prop values) else obj prop
        ])
          ≡ erase (obj prop)
    by_values none b = refl
    by_values (some values) true = ap obj (erase-describe prop values)
    by_values (some values) false = refl

erase-annotate_each :
    (fs : Fields) (observed : Observed) → erase_fields (annotate_each fs observed) ≡ erase_fields fs
unfolding annotate_each erase_fields
erase-annotate_each end observed = refl
erase-annotate_each (field k v fs) observed =
    rw (erase-annotate_each fs observed) (rw (erase-annotate k v observed) refl)

erase-annotate_under :
    (k : Text) (v : Value) (observed : Observed) → erase (annotate_under k v observed) ≡ erase v
unfolding annotate_under erase
erase-annotate_under k null observed = refl
erase-annotate_under k (bool b) observed = refl
erase-annotate_under k (int z) observed = refl
erase-annotate_under k (float t) observed = refl
erase-annotate_under k (str s) observed = refl
erase-annotate_under k (arr vs) observed = refl
erase-annotate_under k (obj fs) observed = elim (Bool-cases (text_eq k (codes "properties"))) [
  | inl e ↦ rw e (ap obj (erase-annotate_each fs observed))
  | inr e ↦ rw e refl
]

mutual
  unfolding render_observed erase

  erase-rendered : (v : Value) (observed : Observed) → erase (render_observed v observed) ≡ erase v
  erase-rendered null observed = refl
  erase-rendered (bool b) observed = refl
  erase-rendered (int z) observed = refl
  erase-rendered (float t) observed = refl
  erase-rendered (str s) observed = refl
  erase-rendered (arr vs) observed = ap arr (erase_items-rendered vs observed)
  erase-rendered (obj fs) observed = ap obj (erase_fields-rendered fs observed)

  erase_items-rendered :
      (vs : Items) (observed : Observed) → erase_items (render_items vs observed) ≡ erase_items vs
  erase_items-rendered nil observed = refl
  erase_items-rendered (cons v vs) observed =
      ap₂ cons (erase-rendered v observed) (erase_items-rendered vs observed)

  erase_fields-rendered :
      (fs : Fields) (observed : Observed)
      → erase_fields (render_fields fs observed) ≡ erase_fields fs
  erase_fields-rendered end observed = refl
  erase_fields-rendered (field k v fs) observed =
      let here =
        erase-annotate_under k (render_observed v observed) observed ∙ erase-rendered v observed in
      ap₂ (λ w rest. if text_eq k (codes "description") then rest else field k w rest) here
        (erase_fields-rendered fs observed)

-- A rendered schema differs from the contract in the entries "description" of its dicts only: with
-- these left out on both sides, the two are equal.
pub erase-render_observed :
    (v : Value) (observed : Observed) → erase (render_observed v observed) ≡ erase v
erase-render_observed v observed = erase-rendered v observed
