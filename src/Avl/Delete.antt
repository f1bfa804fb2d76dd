-- ===== src/Avl/Delete.antt =====
-- `avlDeleteMin` and `avlDelete`: what they take out and what they leave.
use Prim.Native.Nat.Ordering.{eq}
use mathlib.Core.List.{append_assoc, append-nil}
use ross.Prelude.{ℕ, suc, ◌≡◌, refl, sym, ap, ◌∙◌, subst, some, List, [], ◌∷◌, ◌++◌, Has}
use ross.Event.{TwEvent}
use ross.Queue.Tree.{Ptr}
use ross.Queue.Sorted.{Sorted, Sorted-left, Sorted-right}
use ross.Avl.{
  AvlTree, avl_empty, avl_node, Run, key_compare, avl_free, avl_delete_min, delete_root, avl_delete,
  to_list,
}
use ross.Avl.Sane.{IsSane, avl_rebalance-Returned, avl_rebalance-root}
use ross.Avl.Keys.{key_less, to_left, here, to_right, side}

-- The least event was taken out, its node was given back, and the rest passes the check.
record TookMin (t : AvlTree) (free : ℕ) (out : Run (Ptr × AvlTree × ℕ)) : Type 0 where
  least : Ptr
  t' : AvlTree
  returns : out ≡ some (least, t', suc free)
  sane : IsSane t'
  holds : to_list t ≡ least ∷ to_list t'

avl_delete_min-TookMin :
    (l : AvlTree) (k : Ptr) (r : AvlTree) (h free : ℕ)
    → IsSane l
    → IsSane r
    → TookMin (avl_node l k r h) free (avl_delete_min (avl_node l k r h) free)
unfolding avl_delete_min avl_free to_list
avl_delete_min-TookMin avl_empty k r h free p q =
    let after = avl_rebalance-root r q in
    record {
      least = k;
      t' = after.t;
      returns = rw after.returns refl;
      sane = after.sane;
      holds = ap (λ z. k ∷ z) (sym after.holds);
    }
avl_delete_min-TookMin (avl_node ll lk lr lh) k r h free p q =
    let took = avl_delete_min-TookMin ll lk lr lh free p.0 p.1 in
    let after = avl_rebalance-Returned took.t' k r h took.sane q in
    record {
      least = took.least;
      t' = after.t;
      returns = rw (took.returns, after.returns) refl;
      sane = after.sane;
      holds = ap (λ z. z ++ k ∷ to_list r) took.holds ∙ ap (λ z. took.least ∷ z) (sym after.holds);
    }

-- An event was taken out of the sequence, its node was given back, and the rest passes the check.
pub record Removed (xs : List Ptr) (target : Ptr) (free : ℕ) (out : Run (Ptr × AvlTree × ℕ))
    : Type 0 where
  pub t' : AvlTree
  pub returns : out ≡ some (target, t', suc free)
  pub sane : IsSane t'
  pub lesser : List Ptr
  pub greater : List Ptr
  pub old : xs ≡ lesser ++ target ∷ greater
  pub new : to_list t' ≡ lesser ++ greater

delete_root-Removed :
    (l : AvlTree) (k : Ptr) (r : AvlTree) (h free : ℕ)
    → IsSane l
    → IsSane r
    → Removed (to_list (avl_node l k r h)) k free (delete_root l k r h free)
unfolding delete_root avl_free to_list
delete_root-Removed l k avl_empty h free p q =
    let after = avl_rebalance-root l p in
    record {
      t' = after.t;
      returns = rw after.returns refl;
      sane = after.sane;
      lesser = to_list l;
      greater = [];
      old = refl;
      new = after.holds ∙ sym (append-nil (to_list l));
    }
delete_root-Removed l k (avl_node rl rk rr rh) h free p q =
    let took = avl_delete_min-TookMin rl rk rr rh free q.0 q.1 in
    let after = avl_rebalance-Returned l took.least took.t' h p took.sane in
    record {
      t' = after.t;
      returns = rw (took.returns, after.returns) refl;
      sane = after.sane;
      lesser = to_list l;
      greater = to_list rl ++ rk ∷ to_list rr;
      old = refl;
      new = after.holds ∙ ap (λ z. to_list l ++ z) (sym took.holds);
    }

-- For a key that an event of the sorted tree has, `avlDelete` takes out that event and no other,
-- keeps the order of the rest, gives the node back, and leaves a tree that passes `avlSanityCheck`.
pub avl_delete-Removed :
    (event : Ptr → TwEvent) (key target free : ℕ) (t : AvlTree)
    → IsSane t
    → Sorted (key_less event) (to_list t)
    → Has target (to_list t)
    → key_compare (event key) (event target) ≡ eq
    → Removed (to_list t) target free (avl_delete event t key free)
unfolding avl_delete to_list
avl_delete-Removed event key target free avl_empty p s has same = absurd has
avl_delete-Removed event key target free (avl_node l k r h) p s has same =
    let s_right = Sorted-right (key_less event) (to_list l) (k ∷ to_list r) s in
    elim (side event key target (to_list l) k (to_list r) same s has) [
      | to_left e at ↦
          let took =
            avl_delete-Removed event key target free l p.0
              (Sorted-left (key_less event) (to_list l) (k ∷ to_list r) s) at same in
          let after = avl_rebalance-Returned took.t' k r h took.sane p.1 in
          record {
            t' = after.t;
            returns = rw (e, avl_delete, took.returns, after.returns) refl;
            sane = after.sane;
            lesser = took.lesser;
            greater = took.greater ++ k ∷ to_list r;
            old =
                ap (λ z. z ++ k ∷ to_list r) took.old
                ∙ append_assoc took.lesser (target ∷ took.greater) (k ∷ to_list r);
            new =
                after.holds
                ∙ ap (λ z. z ++ k ∷ to_list r) took.new
                ∙ append_assoc took.lesser took.greater (k ∷ to_list r);
          }
      | here e at ↦
          rw (e, avl_delete)
            (subst (λ x. Removed (to_list l ++ k ∷ to_list r) x free (delete_root l k r h free)) at
              (delete_root-Removed l k r h free p.0 p.1))
      | to_right e at ↦
          let took = avl_delete-Removed event key target free r p.1 s_right.1 at same in
          let after = avl_rebalance-Returned l k took.t' h p.0 took.sane in
          record {
            t' = after.t;
            returns = rw (e, avl_delete, took.returns, after.returns) refl;
            sane = after.sane;
            lesser = to_list l ++ k ∷ took.lesser;
            greater = took.greater;
            old =
                ap (λ z. to_list l ++ k ∷ z) took.old
                ∙ sym (append_assoc (to_list l) (k ∷ took.lesser) (target ∷ took.greater));
            new =
                after.holds
                ∙ ap (λ z. to_list l ++ k ∷ z) took.new
                ∙ sym (append_assoc (to_list l) (k ∷ took.lesser) took.greater);
          }
    ]
