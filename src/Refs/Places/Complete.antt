-- ===== src/Refs/Places/Complete.antt =====
-- Each reference in the arguments has an entry in what `find_refs` returns.
use stpp_connector.Refs.Places.{
  At, AtItem, AtField, here, in_list, in_dict, this, later, named, after, IsRefAt,
}
use stpp_connector.Refs.Places.Sound.{find_refs-Sound}
use stpp_connector.Base.{
  ℕ, suc, ◌≡◌, refl, ap, sym, subst, ◌↔◌, some, List, [], ◌∷◌, ◌++◌, append_assoc, append-nil, Text,
  Result, ok, Member, Member-append_left, Member-append_right, All-Member, Ensures, top,
  Ensures-bind, Ensures-bind_eq,
}
use stpp_connector.Json.{Value, Items, Fields, str}
use stpp_connector.Refs.Syntax.{Ref, parse_ref}
use stpp_connector.Refs.Find.{Place, key, index, Found, walk, walk_items, walk_fields, find_refs}

Ensures-Member {ℓ} :
    {A : Type 0} {E : Type ℓ} {a b : A} (m : Result E (List A))
    → a ≡ b
    → Ensures (Member a) m
    → Ensures (Member b) m
Ensures-Member m e h = subst (λ x. Ensures (Member x) m) e h

mutual
  unfolding walk

  walk-Complete :
      {v : Value} {q : List Place} {w : Value}
      → At v q w
      → (path : List Place) (s : Text) (ref : Ref) → w ≡ str s
      → parse_ref s ≡ ok (some ref)
      → Ensures (Member (path ++ q, ref)) (walk v path)
  walk-Complete here path s ref e read =
      rw e (rw read (top (ap (λ p. (p, ref)) (sym (append-nil path)))))
  walk-Complete (in_list at) path s ref e read = walk_items-Complete at path s ref e read
  walk-Complete (in_dict at) path s ref e read = walk_fields-Complete at path s ref e read

  walk_items-Complete :
      {vs : Items} {i : ℕ} {q : List Place} {w : Value}
      → AtItem vs i q w
      → (path : List Place) (s : Text) (ref : Ref) → w ≡ str s
      → parse_ref s ≡ ok (some ref)
      → Ensures (Member (path ++ q, ref)) (walk_items vs path i)
  walk_items-Complete (this {v} {vs} {i} {path = q} at) path s ref e read =
      Ensures-bind (Member (path ++ index i ∷ q, ref)) (Member (path ++ index i ∷ q, ref))
        (walk v (path ++ index i ∷ [])) _
        (Ensures-Member (walk v (path ++ index i ∷ []))
          (ap (λ p. (p, ref)) (append_assoc path (index i ∷ []) q))
          (walk-Complete at (path ++ index i ∷ []) s ref e read))
        λ found h.
          Ensures-bind_eq (Member (path ++ index i ∷ q, ref)) (walk_items vs path (suc i)) _
            λ more k. Member-append_left more h
  walk_items-Complete (later {v} {vs} {i} {path = q} at) path s ref e read =
      Ensures-bind_eq (Member (path ++ q, ref)) (walk v (path ++ index i ∷ [])) _ λ found k.
        Ensures-bind (Member (path ++ q, ref)) (Member (path ++ q, ref))
          (walk_items vs path (suc i)) _ (walk_items-Complete at path s ref e read)
          λ more h. Member-append_right found h

  walk_fields-Complete :
      {fs : Fields} {q : List Place} {w : Value}
      → AtField fs q w
      → (path : List Place) (s : Text) (ref : Ref) → w ≡ str s
      → parse_ref s ≡ ok (some ref)
      → Ensures (Member (path ++ q, ref)) (walk_fields fs path)
  walk_fields-Complete (named {k} {v} {fs} {path = q} at) path s ref e read =
      Ensures-bind (Member (path ++ key k ∷ q, ref)) (Member (path ++ key k ∷ q, ref))
        (walk v (path ++ key k ∷ [])) _
        (Ensures-Member (walk v (path ++ key k ∷ []))
          (ap (λ p. (p, ref)) (append_assoc path (key k ∷ []) q))
          (walk-Complete at (path ++ key k ∷ []) s ref e read))
        λ found h.
          Ensures-bind_eq (Member (path ++ key k ∷ q, ref)) (walk_fields fs path) _
            λ more l. Member-append_left more h
  walk_fields-Complete (after {k} {v} {fs} {path = q} at) path s ref e read =
      Ensures-bind_eq (Member (path ++ q, ref)) (walk v (path ++ key k ∷ [])) _ λ found l.
        Ensures-bind (Member (path ++ q, ref)) (Member (path ++ q, ref)) (walk_fields fs path) _
          (walk_fields-Complete at path s ref e read) λ more h. Member-append_right found h

-- `find_refs` returns exactly the references of the arguments: an entry is returned if and only if
-- its path leads to a text, at any depth of dicts and lists, that reads as its reference.
pub find_refs-exact :
    (args : Value) (found : Found)
    → find_refs args ≡ ok found
    → (path : List Place) (ref : Ref) → Member (path, ref) found ↔ IsRefAt args path ref
unfolding find_refs
find_refs-exact args found e path ref = (
  λ m. All-Member (λ (p, r). IsRefAt args p r) (find_refs-Sound args found e) m,
  λ (at, read). subst (Ensures (Member (path, ref))) e (walk-Complete at [] ref.raw ref refl read),
)
