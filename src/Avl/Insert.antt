-- ===== src/Avl/Insert.antt =====
-- `avlInsert` of core/avl_tree.c on sorted trees.
use Prim.Native.Nat.Ordering.{eq}
use mathlib.Core.List.{append_assoc}
use ross.Prelude.{
  ℕ, ◌-◌, ◌<◌, ◌≡◌, ◌≢◌, refl, sym, ap, ◌∙◌, subst, some, List, [], ◌∷◌, ◌++◌, inl, inr, All,
  All-append, All-append_left, All-append_right, All-imp, arith,
}
use ross.Event.{TwEvent}
use ross.Queue.Tree.{Ptr}
use ross.Queue.Sorted.{Lt, Sorted, Sorted-left, Sorted-right, Sorted-before, Sorted-insert}
use ross.Avl.{AvlTree, avl_empty, avl_node, Run, key_compare, avl_alloc, avl_insert, to_list}
use ross.Avl.Sane.{IsSane, avl_rebalance-Returned}
use ross.Avl.Keys.{key_less, key_less-IsOrder, key_less-lt, key_less-gt, Ordering-cases}

pub alloc-some : (free : ℕ) → 1 < free → avl_alloc free ≡ some (free - 1)
unfolding avl_alloc
alloc-some free room = ground arith

module _ (event : Ptr → TwEvent) (key : Ptr) where
  abbrev Less : Ptr → Ptr → Type 0
  Less = Lt (key_less event)

  -- An event was put between the lesser and the greater ones, a node was taken, and the tree
  -- passes the check.
  pub record Inserted (xs : List Ptr) (free : ℕ) (out : Run (AvlTree × ℕ)) : Type 0 where
    pub t' : AvlTree
    pub returns : out ≡ some (t', free - 1)
    pub sane : IsSane t'
    pub lesser : List Ptr
    pub greater : List Ptr
    pub old : xs ≡ lesser ++ greater
    pub new : to_list t' ≡ lesser ++ key ∷ greater
    pub below : All (λ x. Less x key) lesser
    pub above : All (Less key) greater

  -- While the free list has two nodes, `avlInsert` of an event whose key no event of the sorted
  -- tree has returns a tree that passes `avlSanityCheck` and holds the same events in the same
  -- order, and the new one between those of lesser and those of greater keys.
  pub avl_insert-Inserted :
      (t : AvlTree) (free : ℕ)
      → IsSane t
      → Sorted (key_less event) (to_list t)
      → All (λ x. key_compare (event key) (event x) ≢ eq) (to_list t)
      → 1 < free
      → Inserted (to_list t) free (avl_insert event t key free)
  unfolding avl_insert to_list
  avl_insert-Inserted avl_empty free p s fresh room = record {
    t' = avl_node avl_empty key avl_empty 1;
    returns = rw (alloc-some free room) refl;
    sane = (tt, tt, refl);
    lesser = [];
    greater = [];
    old = refl;
    new = refl;
    below = tt;
    above = tt;
  }
  avl_insert-Inserted (avl_node l k r h) free p s fresh room =
      let left = to_list l in
      let right = to_list r in
      let s_right = Sorted-right (key_less event) left (k ∷ right) s in
      let f_right = All-append_right _ left (k ∷ right) fresh in
      let trans = (key_less-IsOrder event).trans in
      elim (Ordering-cases (key_compare (event key) (event k))) [
        | inl c ↦
            let put =
              avl_insert-Inserted l free p.0 (Sorted-left (key_less event) left (k ∷ right) s)
                (All-append_left _ left (k ∷ right) fresh) room in
            let after = avl_rebalance-Returned put.t' k r h put.sane p.1 in
            let lt_k = key_less-lt event key k c in
            record {
              t' = after.t;
              returns = rw (c, avl_insert, put.returns, after.returns) refl;
              sane = after.sane;
              lesser = put.lesser;
              greater = put.greater ++ k ∷ right;
              old =
                  ap (λ z. z ++ k ∷ right) put.old
                  ∙ append_assoc put.lesser put.greater (k ∷ right);
              new =
                  after.holds
                  ∙ ap (λ z. z ++ k ∷ right) put.new
                  ∙ append_assoc put.lesser (key ∷ put.greater) (k ∷ right);
              below = put.below;
              above =
                  All-append (Less key) put.greater (k ∷ right) put.above
                    (lt_k, All-imp (λ x k_lt. trans key k x lt_k k_lt) right s_right.0);
            }
        | inr (inl c) ↦
            let put = avl_insert-Inserted r free p.1 s_right.1 f_right.1 room in
            let after = avl_rebalance-Returned l k put.t' h p.0 put.sane in
            let k_lt = key_less-gt event key k c in
            record {
              t' = after.t;
              returns = rw (c, avl_insert, put.returns, after.returns) refl;
              sane = after.sane;
              lesser = left ++ k ∷ put.lesser;
              greater = put.greater;
              old =
                  ap (λ z. left ++ k ∷ z) put.old
                  ∙ sym (append_assoc left (k ∷ put.lesser) put.greater);
              new =
                  after.holds
                  ∙ ap (λ z. left ++ k ∷ z) put.new
                  ∙ sym (append_assoc left (k ∷ put.lesser) (key ∷ put.greater));
              below =
                  All-append (λ x. Less x key) left (k ∷ put.lesser)
                    (All-imp (λ x lt_k. trans x k key lt_k k_lt) left
                      (Sorted-before (key_less event) left k right s))
                    (k_lt, put.below);
              above = put.above;
            }
        | inr (inr c) ↦ absurd (f_right.0 c)
      ]

  -- The tree stays sorted.
  pub avl_insert-Sorted :
      (t : AvlTree) (free : ℕ) {out : Run (AvlTree × ℕ)} (put : Inserted (to_list t) free out)
      → Sorted (key_less event) (to_list t)
      → Sorted (key_less event) (to_list put.t')
  avl_insert-Sorted t free put s = rw put.new (
      Sorted-insert (key_less event) put.lesser key put.greater
        (subst (Sorted (key_less event)) put.old s) put.below put.above)
