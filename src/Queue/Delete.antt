-- ===== src/Queue/Delete.antt =====
-- `tw_pq_delete_any` of core/queue/splay.c.
use mathlib.Core.List.{append_assoc, append-nil}
use ross.Prelude.{
  ◌-◌, ◌<◌, ◌≡◌, ◌≢◌, refl, sym, ap, ap₂, ◌∙◌, subst, Bool, true, false, Option, some, List, [],
  ◌∷◌, ◌++◌, arith, ◌==◌, All, All-append, All-append_left, All-append_right, length, length-append,
}
use ross.Queue.Tree.{
  Ptr, Tree, leaf, node, left_of, right_of, TreePath, splay, set_right, join_max, to_list, before,
  behind,
}
use ross.Queue.Pq.{TwPq, set_owner, replacement, relink, tw_pq_delete_any}
use ross.Queue.Splay.{to_list-plug, to_list-splay}
use ross.Queue.Sorted.{IsOrder, Lt, Sorted, Sorted-before, Sorted-remove}
use ross.Queue.Valid.{head_or_null, events, IsValid}
use ross.Queue.Locate.{locate-Located}
use ross.Queue.Dequeue.{dequeue-cons}

-- After the splay of the greatest node of a tree nothing stands to its right.
splay-set_right :
    (l : Tree) (n : Ptr) (up : TreePath) (tmp : Tree)
    → behind up ≡ []
    → to_list (set_right (splay l n leaf up) tmp)
      ≡ (before up ++ (to_list l ++ n ∷ [])) ++ to_list tmp
unfolding splay set_right to_list before behind
splay-set_right l n [] tmp e = simp append_assoc
splay-set_right l n (left_of p pr ∷ up) tmp e = cc
splay-set_right l n (right_of pl p ∷ []) tmp e = simp append_assoc
splay-set_right l n (right_of pl p ∷ left_of g gr ∷ up) tmp e = cc
splay-set_right l n (right_of pl p ∷ right_of gl g ∷ up) tmp e =
    splay-set_right (node (node gl g pl) p l) n up tmp e ∙ simp append_assoc

join_max-to_list :
    (r : Tree) (l : Tree) (n : Ptr) (up : TreePath) (tmp : Tree)
    → behind up ≡ []
    → to_list (join_max l n r up tmp) ≡ (before up ++ to_list (node l n r)) ++ to_list tmp
unfolding join_max to_list before behind
join_max-to_list leaf l n up tmp e = splay-set_right l n up tmp e
join_max-to_list (node rl rn rr) l n up tmp e =
    join_max-to_list rr rl rn (right_of l n ∷ up) tmp e ∙ simp append_assoc

replacement-to_list : (l r : Tree) → to_list (replacement l r) ≡ to_list l ++ to_list r
unfolding replacement before behind to_list
replacement-to_list leaf r = refl
replacement-to_list (node ll ln lr) leaf = sym (append-nil _)
replacement-to_list (node ll ln lr) (node rl rn rr) =
    join_max-to_list lr ll ln [] (node rl rn rr) refl

relink-to_list :
    (t : Tree) (up : TreePath) → to_list (relink t up) ≡ before up ++ (to_list t ++ behind up)
unfolding relink to_list before behind
relink-to_list t [] = sym (append-nil (to_list t))
relink-to_list leaf (f ∷ up) = to_list-plug leaf (f ∷ up)
relink-to_list (node l n r) (left_of p pr ∷ up) =
    to_list-splay (node l n r) p pr up ∙ simp append_assoc
relink-to_list (node l n r) (right_of pl p ∷ up) =
    to_list-splay pl p (node l n r) up ∙ simp append_assoc

regroup : (xs ls rs ys : List Ptr) → xs ++ ((ls ++ rs) ++ ys) ≡ (xs ++ ls) ++ (rs ++ ys)
regroup xs ls rs ys = simp append_assoc

module _ {less_than : Ptr → Ptr → Option Bool} (o : IsOrder less_than) where
  abbrev pub Deleted : List Ptr → Option TwPq → Type 0
  Deleted xs out = (st' : TwPq) × (out ≡ some st') × IsValid less_than st' × (events st' ≡ xs)

  -- On a valid queue that holds the event, `tw_pq_delete_any` returns a valid queue with all the
  -- other events, in order.
  pub tw_pq_delete_any-Deleted :
      {st : TwPq} (r : Ptr) (xs ys : List Ptr)
      → IsValid less_than st
      → events st ≡ xs ++ r ∷ ys
      → Deleted (xs ++ ys) (tw_pq_delete_any st r)
  unfolding tw_pq_delete_any
  tw_pq_delete_any-Deleted {st} r [] ys v e =
      let hit : (r == st.least) ≡ true = ground (arith, v.least ∙ ap head_or_null e) in
      let st1 = record st { owner = set_owner st.owner r 0 } in
      let v1 : IsValid less_than st1 = record {
        sorted = v.sorted;
        least = v.least;
        counted = v.counted;
        allocated = v.allocated;
      } in
      let (st', out, valid, rest) = dequeue-cons o st1 r ys v1 e in
      (st', rw (hit, out) refl, valid, rest)
  tw_pq_delete_any-Deleted {st} r (x ∷ xs) ys v e =
      let sorted = subst (Sorted less_than) e v.sorted in
      let lt = (Sorted-before less_than (x ∷ xs) r ys sorted).0 in
      let first = v.least ∙ ap head_or_null e in
      let ne : x ≢ r = λ q. o.irrefl r (subst (λ z. Lt less_than z r) q lt) in
      let miss : (r == st.least) ≡ false = ground (arith, first, ne) in
      let count = v.counted ∙ ap length e in
      let some_left : (st.nitems == 0) ≡ false = ground (arith, count) in
      let loc = locate-Located o r st.root (x ∷ xs) ys v.sorted e in
      let allocated = subst (All (λ y. 0 < y)) e v.allocated in
      let rest : to_list (relink (replacement loc.l loc.r) loc.up) ≡ (x ∷ xs) ++ ys =
        relink-to_list (replacement loc.l loc.r) loc.up
        ∙ ap (λ z. before loc.up ++ (z ++ behind loc.up)) (replacement-to_list loc.l loc.r)
        ∙ regroup (before loc.up) (to_list loc.l) (to_list loc.r) (behind loc.up)
        ∙ ap₂ ◌++◌ loc.lesser loc.greater in
      (
        record st {
          root = relink (replacement loc.l loc.r) loc.up;
          nitems = st.nitems - 1;
          owner = set_owner st.owner r 0;
        },
        rw (miss, some_left, loc.found) refl,
        record {
          sorted = rw rest (Sorted-remove less_than (x ∷ xs) r ys sorted);
          least = rw rest first;
          counted = rw rest (omega (arith, count, length-append xs (r ∷ ys), length-append xs ys));
          allocated = rw rest (
              All-append _ (x ∷ xs) ys (All-append_left _ (x ∷ xs) (r ∷ ys) allocated)
                (All-append_right _ (x ∷ xs) (r ∷ ys) allocated).1);
        },
        rest,
      )
