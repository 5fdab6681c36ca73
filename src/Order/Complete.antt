-- ===== src/Order/Complete.antt =====
-- Where the validator finds no cycle, `_topological_order` ends.
use mathlib.Core.List.{Perm}
use mathlib.Core.List.Perm
use stpp_connector.Base.{
  ℕ, zero, suc, ◌≡◌, refl, sym, ap₂, ◌∙◌, subst, true, false, some, List, [], ◌∷◌, ◌++◌,
  append_assoc, append-nil, arith, All, mem, lookup_id, sorted, length, length-append, Unique,
  Bool-cases, inl, inr, ltb,
}
use stpp_connector.Base.Perms.{length-Perm, filter_map-sorted-Perm}
use stpp_connector.Plan.{Step, ids_of, entries}
use stpp_connector.Validator.Graph.{ready_of, kahn}
use stpp_connector.Order.{ById, ready_ids, order_on}
use stpp_connector.Order.Pending.{rest_of, pending, Declared, ready_of-rest_of, without-rest_of}
use stpp_connector.Order.Round.{steps_at, steps_at-ready_ids, ready_ids-Agrees, round-Perm}
use stpp_connector.Order.Loop.{
  Precedes, IsReadyId, entries-IsIn, ready_ids-IsReadyId, All-sorted, ids_of-steps_at,
  steps_at-Done, ids_of-append, Precedes-new, Precedes-append,
}

-- The order that the loop returns.
pub record IsOrderOf (steps : List Step) (ordered : List Step) : Type 0 where
  pub rearranged : Perm ordered steps
  pub respected : Precedes [] ordered

pending-nil : (done : List ℕ) (ss : List Step) → rest_of done ss ≡ [] → pending done ss ≡ []
unfolding rest_of pending
pending-nil done [] h = refl
pending-nil done (s ∷ ss) h = elim (Bool-cases (mem s.id done)) [
  | inl d ↦ rw d (pending-nil done ss (rw (d, rest_of) at h))
  | inr d ↦ cc (rw (d, rest_of) at h)
]

length-zero : (ss : List Step) → length ss ≡ 0 → ss ≡ []
length-zero [] h = refl
length-zero (s ∷ ss) h = absurd (omega arith)

module _ (steps : List Step) (unique : Unique (ids_of steps))
    (declared : All (Declared (ids_of steps)) steps) where
  abbrev pub by_id : ById
  by_id = entries (λ s. s) steps

  -- What the loop has reached.
  pub record IsReached (ordered : List Step) (done : List ℕ) : Type 0 where
    pub split : Perm (ordered ++ pending done steps) steps
    pub precedes : Precedes [] ordered
    pub ids : ids_of ordered ≡ done

  IsReached-round :
      (ordered : List Step) (done : List ℕ)
      → IsReached ordered done
      → let ready = sorted (ready_ids by_id done by_id) in
        IsReached (ordered ++ steps_at by_id ready) (done ++ ready)
  IsReached-round ordered done r =
      let found = ready_ids by_id done by_id in
      let is_in = entries-IsIn steps unique in
      let is_ready =
        All-sorted (IsReadyId by_id done) found
          (ready_ids-IsReadyId steps done steps is_in declared) in
      record {
        split =
            Perm.trans
              (subst (λ xs. Perm xs (ordered ++ pending done steps))
                (sym (
                  append_assoc ordered (steps_at by_id (sorted found))
                    (pending (done ++ sorted found) steps)))
                (Perm.append_left ordered (
                  Perm.trans
                    (Perm.append_right (pending (done ++ sorted found) steps)
                      (filter_map-sorted-Perm (λ sid. lookup_id sid by_id) found))
                    (rw (steps_at-ready_ids by_id done steps is_in) (
                      round-Perm by_id done found steps
                        (ready_ids-Agrees by_id done steps unique))))))
              r.split;
        precedes = Precedes-append [] ordered (steps_at by_id (sorted found)) r.precedes (
            subst (λ d. Precedes d (steps_at by_id (sorted found))) (sym r.ids)
              (Precedes-new done (steps_at by_id (sorted found))
                (steps_at-Done by_id done (sorted found) is_ready)));
        ids =
            ids_of-append ordered (steps_at by_id (sorted found))
            ∙ ap₂ ◌++◌ r.ids (ids_of-steps_at by_id done (sorted found) is_ready);
      }

  finished :
      (ordered : List Step) (done : List ℕ)
      → IsReached ordered done
      → pending done steps ≡ []
      → IsOrderOf steps ordered
  finished ordered done r e = record {
    rearranged =
        subst (λ o. Perm o steps) (append-nil ordered)
          (subst (λ p. Perm (ordered ++ p) steps) e r.split);
    respected = r.precedes;
  }

  pending-full :
      (ordered : List Step) (done : List ℕ)
      → IsReached ordered done
      → ltb (length ordered) (length steps) ≡ false
      → pending done steps ≡ []
  pending-full ordered done r e =
      length-zero (pending done steps)
        (ground (arith, length-append ordered (pending done steps), length-Perm r.split))

  not_full :
      (ordered : List Step) (done : List ℕ)
      → IsReached ordered done
      → pending done steps ≡ []
      → ltb (length ordered) (length steps) ≡ false
  not_full ordered done r e =
      ground (arith, length-append ordered (pending done steps), length-Perm r.split)

  kahn-round :
      (fuel : ℕ) (ordered : List Step) (done : List ℕ)
      → IsReached ordered done
      → kahn (suc fuel) (rest_of done steps) ≡ []
      → ltb (length ordered) (length steps) ≡ true
      → kahn fuel (rest_of (done ++ sorted (ready_ids by_id done by_id)) steps) ≡ []
  unfolding kahn
  kahn-round fuel ordered done r k more = by_ready (ready_of (rest_of done steps)) refl
    where
      by_ready :
          (ready : List ℕ)
          → ready_of (rest_of done steps) ≡ ready
          → kahn fuel (rest_of (done ++ sorted (ready_ids by_id done by_id)) steps) ≡ []
      by_ready [] e =
          cc (more, not_full ordered done r (pending-nil done steps (rw (e, kahn) at k)))
      by_ready (i ∷ is) e =
          let same : ready_ids by_id done by_id ≡ i ∷ is =
            sym (ready_of-rest_of steps done steps declared) ∙ e in
          rw same (rw (← without-rest_of done (i ∷ is) steps) (rw (e, kahn) at k))

  pub order_on_complete :
      (fuel : ℕ) (ordered : List Step) (done : List ℕ)
      → IsReached ordered done
      → kahn fuel (rest_of done steps) ≡ []
      → (o : List Step) × (order_on fuel (length steps) by_id ordered done ≡ some o)
        × IsOrderOf steps o
  unfolding kahn order_on
  order_on_complete zero ordered done r k =
      let empty = pending-nil done steps k in
      (ordered, rw (not_full ordered done r empty) refl, finished ordered done r empty)
  order_on_complete (suc fuel) ordered done r k =
      elim (Bool-cases (ltb (length ordered) (length steps))) [
        | inr full ↦
            (ordered, rw full refl, finished ordered done r (pending-full ordered done r full))
        | inl more ↦
            let next = sorted (ready_ids by_id done by_id) in
            let (o, e, is_order) =
              order_on_complete fuel (ordered ++ steps_at by_id next) (done ++ next)
                (IsReached-round ordered done r) (kahn-round fuel ordered done r k more) in
            (o, rw more e, is_order)
      ]
