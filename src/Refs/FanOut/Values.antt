-- ===== src/Refs/FanOut/Values.antt =====
-- The arguments of each tool call, place by place.
use stpp_connector.Base.{
  ℕ, zero, suc, ◌≡◌, refl, ap, ◌∙◌, subst, false, inl, inr, Option, none, some, List, [], ◌∷◌, map,
  Text, text_eq, text_eq_iff, text_eq_refl, lookup_text, take, get_elem?, ok, if◌then◌else◌,
  Bool-cases,
}
use stpp_connector.Json.{Value, Items, Fields, str}
use stpp_connector.Refs.Syntax.{Ref, parse_ref}
use stpp_connector.Refs.Find.{Place}
use stpp_connector.Refs.Places.{
  At, AtItem, AtField, here, in_list, in_dict, this, later, named, after,
}
use stpp_connector.Refs.Resolve.{Results, Resolution, resolve}
use stpp_connector.Refs.Calls.{
  Replacements, Chosen, replaced, substitute, substitute_items, substitute_fields, calls_of,
}
use stpp_connector.Refs.FanOut.{IsRead, IsHandled}
use stpp_connector.Refs.FanOut.Handled.{same_ref}
use stpp_connector.Refs.FanOut.Origin.{IsFromRefs}

mutual
  unfolding substitute

  pub substitute-At :
      {v : Value} {q : List Place} {w : Value}
      → At v q w
      → (r : Replacements) (s : Text) → w ≡ str s
      → At (substitute v r) q (replaced s (lookup_text s r))
  substitute-At here r s e = rw e here
  substitute-At (in_list at) r s e = in_list (substitute_items-At at r s e)
  substitute-At (in_dict at) r s e = in_dict (substitute_fields-At at r s e)

  substitute_items-At :
      {vs : Items} {i : ℕ} {q : List Place} {w : Value}
      → AtItem vs i q w
      → (r : Replacements) (s : Text) → w ≡ str s
      → AtItem (substitute_items vs r) i q (replaced s (lookup_text s r))
  substitute_items-At (this at) r s e = this (substitute-At at r s e)
  substitute_items-At (later at) r s e = later (substitute_items-At at r s e)

  substitute_fields-At :
      {fs : Fields} {q : List Place} {w : Value}
      → AtField fs q w
      → (r : Replacements) (s : Text) → w ≡ str s
      → AtField (substitute_fields fs r) q (replaced s (lookup_text s r))
  substitute_fields-At (named at) r s e = named (substitute-At at r s e)
  substitute_fields-At (after at) r s e = after (substitute_fields-At at r s e)

-- The bindings of one of the calls, and the number of the call.
pub record IsCall (args : Value) (c : Chosen) (i : ℕ) (call : Value) : Type 0 where
  pub bindings : Replacements
  pub is_substituted : call ≡ substitute args bindings
  pub plain : c.fan_raw ≡ none → bindings ≡ c.scalar
  pub fanned :
      (raw : Text)
      → c.fan_raw ≡ some raw
      → (v : Value) × (bindings ≡ (raw, v) ∷ c.scalar) × (get_elem? c.fan_values i ≡ some v)

get_elem?-map-take :
    (f : Value → Value) (n : ℕ) (vs : List Value) (i : ℕ) (w : Value)
    → get_elem? (map f (take n vs)) i ≡ some w
    → (v : Value) × (get_elem? vs i ≡ some v) × (w ≡ f v)
get_elem?-map-take f zero vs i w e = cc
get_elem?-map-take f (suc n) [] i w e = cc
get_elem?-map-take f (suc n) (v ∷ vs) zero w e = (v, refl, cc)
get_elem?-map-take f (suc n) (v ∷ vs) (suc i) w e = get_elem?-map-take f n vs i w e

IsCall-fan :
    (args : Value) (n i : ℕ) (call : Value) (sc : Replacements) (o : Option Text) (vs : List Value)
    → let c : Chosen = record { scalar = sc; fan_raw = o; fan_values = vs } in
      get_elem? (calls_of args n (some c)).calls i ≡ some call → IsCall args c i call
unfolding calls_of
IsCall-fan args n zero call sc none vs e = record {
  bindings = sc;
  is_substituted = cc;
  plain = λ p. refl;
  fanned = λ raw p. cc;
}
IsCall-fan args n (suc i) call sc none vs e = cc
IsCall-fan args n i call sc (some raw) [] e = cc
IsCall-fan args n i call sc (some raw) (v ∷ vs) e =
    let (w, at, made) =
      get_elem?-map-take (λ x. substitute args ((raw, x) ∷ sc)) n (v ∷ vs) i call e in
    record {
      bindings = (raw, w) ∷ sc;
      is_substituted = made;
      plain = λ p. cc;
      fanned = λ raw' p. (w, cc, at);
    }

pub calls_of-IsCall :
    (args : Value) (n : ℕ) (c : Chosen) (i : ℕ) (call : Value)
    → get_elem? (calls_of args n (some c)).calls i ≡ some call
    → IsCall args c i call
calls_of-IsCall args n c i call = IsCall-fan args n i call c.scalar c.fan_raw c.fan_values

-- What stands in call number `i` for a reference: its value number `i` if it fans out, else its
-- first value.
abbrev pub IsValueOf : Results → Ref → ℕ → Value → Type 0
IsValueOf results ref i v =
    (res : Resolution) × (resolve ref results ≡ some res)
    × (get_elem? res.values (if res.fanned then i else 0) ≡ some v)

pub bound_value :
    (args : Value) (results : Results) (c : Chosen) (i : ℕ) (call : Value) (ref : Ref)
    → IsRead ref
    → IsFromRefs results c
    → IsHandled results c ref
    → (k : IsCall args c i call)
    → (v : Value) × (lookup_text ref.raw k.bindings ≡ some v) × IsValueOf results ref i v
bound_value args results c i call ref read from (res, found, inl (f, raw, vals)) k =
    let (v, b, at) = k.fanned ref.raw raw in
    (
      v,
      rw b (rw text_eq_refl refl),
      (res, found, rw f (subst (λ vs. get_elem? vs i ≡ some v) vals at)),
    )
bound_value args results c i call ref read from (res, found, inr (f, (v, vs, vals, bound))) k =
    (v, in_bindings c.fan_raw refl, (res, found, rw (f, vals) refl))
  where
    other : (raw : Text) → c.fan_raw ≡ some raw → text_eq raw ref.raw ≡ false
    other raw p = elim (Bool-cases (text_eq raw ref.raw)) [
      | inl same ↦
          let (b, rb, e, (r, fb, fr)) = from.fan raw p in
          let one : b ≡ ref = same_ref b ref rb read (e ∙ (text_eq_iff raw ref.raw).0 same) in
          let same_res : resolve ref results ≡ some r =
            subst (λ x. resolve x results ≡ some r) one fb in
          cc
      | inr e ↦ e
    ]

    in_bindings : (o : Option Text) → c.fan_raw ≡ o → lookup_text ref.raw k.bindings ≡ some v
    in_bindings none p = rw (k.plain p) bound
    in_bindings (some raw) p = let (w, b, at) = k.fanned raw p in rw b (rw (other raw p) bound)

pub unbound_literal :
    (args : Value) (results : Results) (c : Chosen) (i : ℕ) (call : Value) (s : Text)
    → parse_ref s ≡ ok none
    → IsFromRefs results c
    → (k : IsCall args c i call) → lookup_text s k.bindings ≡ none
unbound_literal args results c i call s plain from k = in_bindings c.fan_raw refl
  where
    other : (raw : Text) → c.fan_raw ≡ some raw → text_eq raw s ≡ false
    other raw p = elim (Bool-cases (text_eq raw s)) [
      | inl same ↦
          let (b, rb, e, (r, fb, fr)) = from.fan raw p in
          cc (rb, plain, ap parse_ref (e ∙ (text_eq_iff raw s).0 same))
      | inr e ↦ e
    ]

    in_bindings : (o : Option Text) → c.fan_raw ≡ o → lookup_text s k.bindings ≡ none
    in_bindings none p = rw (k.plain p) (from.literal s plain)
    in_bindings (some raw) p =
        let (w, b, at) = k.fanned raw p in rw b (rw (other raw p) (from.literal s plain))
