-- ===== src/Base/Perms.antt =====
-- Rearrangements: lengths, and what sorting does under a comprehension.
use mathlib.Core.Path.{◌≡◌, refl, ap, ◌∙◌}
use mathlib.Core.Logic.{∥∥₁_elim, inl, inr}
use mathlib.Core.Option.{Option, none, some}
use mathlib.Core.List.{List, [], ◌∷◌, Perm, Permᴰ}
use mathlib.Core.List.Perm
use native.Mathlib.Nat.{ℕ_set}
use Prim.Native.Nat.{ℕ, suc}
use stpp_connector.Base.Tests.{leb, Bool-cases}
use stpp_connector.Base.Lists.{length, filter_map, insert_sorted, sorted}

module _ {ℓ} {A : Type ℓ} where
  length-Permᴰ : {xs ys : List A} → Permᴰ xs ys → length xs ≡ length ys
  length-Permᴰ Permᴰ.nil = refl
  length-Permᴰ (Permᴰ.cons e p) = ap suc (length-Permᴰ p)
  length-Permᴰ (Permᴰ.swap e f) = refl
  length-Permᴰ (Permᴰ.trans p q) = length-Permᴰ p ∙ length-Permᴰ q

  pub length-Perm : {xs ys : List A} → Perm xs ys → length xs ≡ length ys
  length-Perm {xs} {ys} p = ∥∥₁_elim p (ℕ_set (length xs) (length ys)) length-Permᴰ

  abbrev push : Option A → List A → List A
  push o xs = elim o [ none ↦ xs | some y ↦ y ∷ xs ]

  push-Perm : (o : Option A) {xs ys : List A} → Perm xs ys → Perm (push o xs) (push o ys)
  push-Perm none p = p
  push-Perm (some y) p = Perm.cons y p

  push_comm-Perm : (o p : Option A) (xs : List A) → Perm (push o (push p xs)) (push p (push o xs))
  push_comm-Perm none p xs = Perm.refl (push p xs)
  push_comm-Perm (some y) none xs = Perm.refl (y ∷ xs)
  push_comm-Perm (some y) (some z) xs = Perm.swap z y xs

  filter_map-insert_sorted-Perm :
      (f : ℕ → Option A) (a : ℕ) (xs : List ℕ)
      → Perm (filter_map f (insert_sorted a xs)) (filter_map f (a ∷ xs))
  filter_map-insert_sorted-Perm f a [] = Perm.refl (filter_map f (a ∷ []))
  filter_map-insert_sorted-Perm f a (x ∷ xs) = elim (Bool-cases (leb a x)) [
    | inl e ↦ rw e (Perm.refl (filter_map f (a ∷ x ∷ xs)))
    | inr e ↦ rw e (
        Perm.trans (push-Perm (f x) (filter_map-insert_sorted-Perm f a xs))
          (push_comm-Perm (f x) (f a) (filter_map f xs)))
  ]

  -- Sorting the ids first only rearranges what a comprehension over them gives.
  pub filter_map-sorted-Perm :
      (f : ℕ → Option A) (xs : List ℕ) → Perm (filter_map f (sorted xs)) (filter_map f xs)
  filter_map-sorted-Perm f [] = Perm.refl []
  filter_map-sorted-Perm f (x ∷ xs) =
      Perm.trans (filter_map-insert_sorted-Perm f x (sorted xs))
        (push-Perm (f x) (filter_map-sorted-Perm f xs))
