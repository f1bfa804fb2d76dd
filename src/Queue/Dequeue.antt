-- ===== src/Queue/Dequeue.antt =====
-- `tw_pq_dequeue` of core/queue/splay.c.
use mathlib.Core.List.{append_assoc, append-nil}
use ross.Prelude.{
  ◌-◌, ◌<◌, ◌≡◌, ◌≢◌, refl, sym, ap, ◌∙◌, subst, Bool, true, false, Option, some, List, [], ◌∷◌,
  ◌++◌, arith, ◌==◌, All, length,
}
use ross.Queue.Tree.{
  Ptr, null, Tree, leaf, node, left_of, right_of, TreePath, plug, leftmost, to_list, before, behind,
}
use ross.Queue.Pq.{TwPq, set_owner, least_below, unlink_least, tw_pq_dequeue}
use ross.Queue.Splay.{to_list-plug}
use ross.Queue.Sorted.{IsOrder, Sorted}
use ross.Queue.Valid.{head_or_null, events, IsValid}
use ross.Queue.Locate.{locate-Located}

leftmost-head :
    (l : Tree) (n : Ptr) (r : Tree) (ys : List Ptr)
    → leftmost l n r ≡ head_or_null (to_list (node l n r) ++ ys)
unfolding leftmost to_list
leftmost-head leaf n r ys = refl
leftmost-head (node ll ln lr) n r ys =
    leftmost-head ll ln lr (n ∷ (to_list r ++ ys))
    ∙ ap head_or_null (sym (append_assoc (to_list (node ll ln lr)) (n ∷ to_list r) ys))

least_below-head :
    (r : Tree) (p : Ptr) (ys : List Ptr)
    → p ≡ head_or_null ys
    → least_below r p ≡ head_or_null (to_list r ++ ys)
unfolding least_below to_list
least_below-head leaf p ys h = h
least_below-head (node l n r) p ys h = leftmost-head l n r ys

append-ne-nil : (xs : List Ptr) (y : Ptr) (ys : List Ptr) → xs ++ y ∷ ys ≢ []
append-ne-nil [] y ys e = cc
append-ne-nil (x ∷ xs) y ys e = cc

append-eq-nil : (xs ys : List Ptr) → xs ++ ys ≡ [] → (xs ≡ []) × (ys ≡ [])
append-eq-nil [] ys e = (refl, e)
append-eq-nil (x ∷ xs) ys e = cc

-- Nothing lies before the least node: it has no left subtree, and every step up is to the right.
unlink_least-Taken :
    (r : Tree) (up : TreePath)
    → before up ≡ []
    → (t : Tree) × (unlink_least r up ≡ some (t, head_or_null (to_list r ++ behind up)))
      × (to_list t ≡ to_list r ++ behind up)
unfolding unlink_least before behind
unlink_least-Taken r [] e =
    (r, ap (λ z. some (r, z)) (least_below-head r null [] refl), sym (append-nil (to_list r)))
unlink_least-Taken r (left_of p pr ∷ up) e = (
  plug r (left_of p pr ∷ up),
  ap (λ z. some (plug r (left_of p pr ∷ up), z))
      (least_below-head r p (p ∷ (to_list pr ++ behind up)) refl),
  to_list-plug r (left_of p pr ∷ up) ∙ rw (e, before) refl,
)
unlink_least-Taken r (right_of pl p ∷ up) e =
    absurd
      (append-ne-nil (before up ++ to_list pl) p [] (append_assoc (before up) (to_list pl) _ ∙ e))

module _ {less_than : Ptr → Ptr → Option Bool} (o : IsOrder less_than) where
  -- What `tw_pq_dequeue` returns for the events of the queue.
  abbrev pub Dequeued : TwPq → List Ptr → Option (Ptr × TwPq) → Type 0
  Dequeued st [] out = out ≡ some (null, st)
  Dequeued st (x ∷ xs) out =
      (st' : TwPq) × (out ≡ some (x, st')) × IsValid less_than st' × (events st' ≡ xs)

  pub dequeue-cons :
      (st : TwPq) (x : Ptr) (xs : List Ptr)
      → IsValid less_than st
      → events st ≡ x ∷ xs
      → Dequeued st (x ∷ xs) (tw_pq_dequeue st)
  unfolding tw_pq_dequeue
  dequeue-cons st x xs v e =
      let is_least : st.least ≡ x = v.least ∙ ap head_or_null e in
      let count = v.counted ∙ ap length e in
      let some_left : (st.nitems == 0) ≡ false = ground (arith, count) in
      let loc = locate-Located o x st.root [] xs v.sorted e in
      let (no_before, no_left) = append-eq-nil (before loc.up) (to_list loc.l) loc.lesser in
      let (t, taken, rest) = unlink_least-Taken loc.r loc.up no_before in
      let rest' : to_list t ≡ xs = rest ∙ loc.greater in
      let sorted = subst (Sorted less_than) e v.sorted in
      let allocated = subst (All (λ y. 0 < y)) e v.allocated in
      (
        record st {
          root = t;
          least = head_or_null (to_list loc.r ++ behind loc.up);
          nitems = st.nitems - 1;
          owner = set_owner st.owner st.least 0;
        },
        rw (some_left, is_least, loc.found, taken) refl,
        record {
          sorted = rw rest' sorted.1;
          least = rw rest' (ap head_or_null loc.greater);
          counted = rw rest' (omega (arith, count));
          allocated = rw rest' allocated.1;
        },
        rest',
      )

  dequeue-nil :
      (st : TwPq) → IsValid less_than st → events st ≡ [] → tw_pq_dequeue st ≡ some (null, st)
  unfolding tw_pq_dequeue
  dequeue-nil st v e =
      let count = v.counted ∙ ap length e in
      let empty : (st.nitems == 0) ≡ true = ground (arith, count) in rw empty refl

  dequeue-events :
      (st : TwPq) (xs : List Ptr)
      → IsValid less_than st
      → events st ≡ xs
      → Dequeued st xs (tw_pq_dequeue st)
  dequeue-events st [] v e = dequeue-nil st v e
  dequeue-events st (x ∷ xs) v e = dequeue-cons st x xs v e

  -- On a valid queue without events `tw_pq_dequeue` returns the null pointer and changes nothing; on
  -- any other valid queue it returns the first event of the order and leaves a valid queue with the
  -- others, in order.
  pub tw_pq_dequeue-Dequeued :
      {st : TwPq} → IsValid less_than st → Dequeued st (events st) (tw_pq_dequeue st)
  tw_pq_dequeue-Dequeued {st} v = dequeue-events st (events st) v refl
