-- ===== src/Queue/Enqueue.antt =====
-- `tw_pq_enqueue` of core/queue/splay.c.
use mathlib.Core.List.{append_assoc, append-nil}
use ross.Prelude.{
  ◌+◌, ◌^◌, ◌<◌, ◌≡◌, ◌≢◌, refl, sym, ap, ◌∙◌, Bool, Option, some, List, [], ◌∷◌, ◌++◌, arith, ◌==◌,
  ltb, ◌%◌, All, All-append, All-append_left, All-append_right, All-imp, length, length-append,
  Answer-cases, inl, inr, subst, if◌then◌else◌,
}
use ross.Queue.Tree.{
  Ptr, Tree, leaf, node, left_of, right_of, TreePath, splay, to_list, before, behind,
}
use ross.Queue.Pq.{TwPq, set_owner, pe_pq, descend, new_least, tw_pq_enqueue}
use ross.Queue.Splay.{to_list-splay}
use ross.Queue.Sorted.{
  IsOrder, Lt, Sorted, Comparable, Sorted-left, Sorted-right, Sorted-before, Sorted-insert,
}
use ross.Queue.Valid.{head_or_null, events, IsValid}

head-append :
    (xs : List Ptr) (n : Ptr) (ys zs : List Ptr)
    → head_or_null (xs ++ n ∷ ys) ≡ head_or_null (xs ++ n ∷ zs)
head-append [] n ys zs = refl
head-append (x ∷ xs) n ys zs = refl

module _ {less_than : Ptr → Ptr → Option Bool} (o : IsOrder less_than) (e : Ptr) where
  -- A free place with lesser events before it and greater ones behind it.
  record Place (xs : List Ptr) (r : Option TreePath) : Type 0 where
    up : TreePath
    found : r ≡ some up
    below : All (λ x. Lt less_than x e) (before up)
    above : All (Lt less_than e) (behind up)
    whole : before up ++ behind up ≡ xs

  descend-Place :
      (t : Tree) (up : TreePath)
      → Sorted less_than (to_list t)
      → Comparable less_than e (to_list t)
      → All (λ x. Lt less_than x e) (before up)
      → All (Lt less_than e) (behind up)
      → Place (before up ++ (to_list t ++ behind up)) (descend less_than e t up)
  unfolding descend to_list before behind
  descend-Place leaf up s c a b = record {
    up = up;
    found = refl;
    below = a;
    above = b;
    whole = refl;
  }
  descend-Place (node l n r) up s c a b =
      let left = to_list l in
      let right = to_list r in
      let s_right = Sorted-right less_than left (n ∷ right) s in
      let c_right = All-append_right _ left (n ∷ right) c in
      elim (Answer-cases (less_than n e)) [
        | inl eq ↦ absurd (c_right.0 eq)
        | inr (inl eq) ↦
            let lesser =
              All-append _ left (n ∷ [])
                (All-imp (λ x h. o.trans x n e h eq) left (Sorted-before less_than left n right s))
                (eq, tt) in
            rw (eq, descend)
              (subst (λ xs. Place xs (descend less_than e r (right_of l n ∷ up)))
                (simp append_assoc)
                (descend-Place r (right_of l n ∷ up) s_right.1 c_right.1
                  (All-append _ (before up) (left ++ n ∷ []) a lesser) b))
        | inr (inr eq) ↦
            let e_lt_n = o.asymm n e eq in
            let greater = All-imp (λ x h. o.trans e n x e_lt_n h) right s_right.0 in
            rw (eq, descend)
              (subst (λ xs. Place xs (descend less_than e l (left_of n r ∷ up))) (simp append_assoc)
                (descend-Place l (left_of n r ∷ up) (Sorted-left less_than left (n ∷ right) s)
                  (All-append_left _ left (n ∷ right) c) a
                  (e_lt_n, All-append _ right (behind up) greater b)))
      ]

  head-insert :
      (xs : List Ptr) (n : Ptr) (ys : List Ptr) (least : Ptr)
      → Sorted less_than (xs ++ n ∷ ys)
      → least ≡ head_or_null (xs ++ n ∷ ys)
      → (if least == n then e else least) ≡ head_or_null (xs ++ e ∷ n ∷ ys)
  head-insert [] n ys least s h = ground arith
  head-insert (x ∷ xs) n ys least s h =
      let lt = (Sorted-before less_than (x ∷ xs) n ys s).0 in
      let ne : x ≢ n = λ q. o.irrefl n (subst (λ z. Lt less_than z n) q lt) in ground (arith, ne)

  -- The stored pointer to the least event stays right.
  head-new_least :
      (up : TreePath) (least : Ptr)
      → Sorted less_than (before up ++ behind up)
      → least ≡ head_or_null (before up ++ behind up)
      → new_least e up least ≡ head_or_null (before up ++ e ∷ behind up)
  unfolding new_least before behind
  head-new_least [] least s h = refl
  head-new_least (right_of l n ∷ up) least s h =
      let xs = before up ++ to_list l in
      h
      ∙ ap head_or_null (regroup up l n (behind up))
      ∙ head-append xs n (behind up) (e ∷ behind up)
      ∙ ap head_or_null (sym (regroup up l n (e ∷ behind up)))
    where
      regroup :
          (up : TreePath) (l : Tree) (n : Ptr) (ys : List Ptr)
          → (before up ++ (to_list l ++ n ∷ [])) ++ ys ≡ (before up ++ to_list l) ++ n ∷ ys
      regroup up l n ys = simp append_assoc
  head-new_least (left_of n r ∷ up) least s h =
      head-insert (before up) n (to_list r ++ behind up) least s h

  descend-root :
      (t : Tree)
      → Sorted less_than (to_list t)
      → Comparable less_than e (to_list t)
      → Place (to_list t) (descend less_than e t [])
  unfolding before behind
  descend-root t s c =
      subst (λ xs. Place xs (descend less_than e t [])) (append-nil (to_list t))
        (descend-Place t [] s c tt tt)

  -- What `tw_pq_enqueue` leaves.
  pub record Inserted (st : TwPq) (r : Option TwPq) : Type 0 where
    pub st' : TwPq
    pub returns : r ≡ some st'
    pub valid : IsValid less_than st'
    pub lesser : List Ptr
    pub greater : List Ptr
    pub old : events st ≡ lesser ++ greater
    pub new : events st' ≡ lesser ++ e ∷ greater

  -- On a valid queue with less than 2 ^ 32 - 1 events, for an allocated event that the comparison
  -- tells from each of them, `tw_pq_enqueue` returns a valid queue with the same events in the same
  -- order and the new one at a place between them.
  pub tw_pq_enqueue-Inserted :
      {st : TwPq}
      → IsValid less_than st
      → 0 < e
      → Comparable less_than e (events st)
      → length (events st) + 1 < 2 ^ 32
      → Inserted st (tw_pq_enqueue less_than st e)
  unfolding tw_pq_enqueue to_list
  tw_pq_enqueue-Inserted {st} v pos c room =
      let place = descend-root st.root v.sorted c in
      let up = place.up in
      let order = sym place.whole in
      let new = to_list-splay leaf e leaf up in
      let sorted' =
        Sorted-insert less_than (before up) e (behind up) (subst (Sorted less_than) order v.sorted)
          place.below place.above in
      let allocated' = subst (All (λ x. 0 < x)) order v.allocated in
      let count = ap length order ∙ length-append (before up) (behind up) in
      record {
        st' = record {
          root = splay leaf e leaf up;
          least = new_least e up st.least;
          nitems = (st.nitems + 1) % 2 ^ 32;
          max_size =
              if ltb st.max_size ((st.nitems + 1) % 2 ^ 32)
              then (st.nitems + 1) % 2 ^ 32
              else st.max_size;
          owner = set_owner st.owner e pe_pq;
        };
        returns = rw (place.found, tw_pq_enqueue);
        valid = record {
          sorted = rw new sorted';
          least = rw new (
              head-new_least up st.least (subst (Sorted less_than) order v.sorted)
                (v.least ∙ ap head_or_null order));
          counted =
              rw new (omega (arith, count, length-append (before up) (e ∷ behind up), v.counted));
          allocated = rw new (
              All-append _ (before up) (e ∷ behind up)
                (All-append_left _ (before up) (behind up) allocated')
                (pos, All-append_right _ (before up) (behind up) allocated'));
        };
        lesser = before up;
        greater = behind up;
        old = order;
        new = new;
      }
