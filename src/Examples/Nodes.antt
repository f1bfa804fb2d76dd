-- ===== src/Examples/Nodes.antt =====
-- core/avl_tree.c at concrete inputs.
use Prim.Native.Nat.Ordering.{eq}
use ross.Prelude.{ℕ, ◌+◌, ◌≤◌, ◌≡◌, ◌≢◌, ◌↔◌, inl, inr, refl, true, some, arith, Has, All}
use ross.Queue.Tree.{Ptr}
use ross.Queue.Sorted.{Sorted}
use ross.Avl.{
  AvlTree, avl_empty, avl_node, first_tiebreaker, key_compare, avl_insert, avl_search, avl_delete,
  avl_rebalance, avl_rotate_0, avl_rotate_1, too_tall_0, child_heights, avl_fix_height, ross_max,
  avl_get_height, avl_delete_min, delete_root, avl_free, to_list,
}
use ross.Avl.Sane.{height, IsSane}
use ross.Avl.Keys.{key_less}
use ross.Avl.Insert.{Inserted, avl_insert-Inserted}
use ross.Avl.Balance.{IsAvl}
use ross.Avl.Grow.{avl_insert-IsAvl}
use ross.Avl.Delete.{Removed, avl_delete-Removed}
use ross.Avl.Search.{Stored, avl_search_iff}
use ross.Examples.Signatures.{event_at}

abbrev single : Ptr → AvlTree
single k = avl_node avl_empty k avl_empty 1

abbrev pair : AvlTree
pair = avl_node avl_empty 2 (single 4) 2

pair-IsAvl : IsAvl pair
pair-IsAvl = (tt, (tt, tt, refl, omega arith, omega arith), refl, omega arith, omega arith)

pair-IsSane : IsSane pair
pair-IsSane = (tt, (tt, tt, refl), refl)

pair-Sorted : Sorted (key_less event_at) (to_list pair)
unfolding to_list key_compare
pair-Sorted = ((refl, tt), (tt, tt))

pair-Has : Has 4 (to_list pair)
unfolding to_list
pair-Has = inr (inl refl)

six_fresh : All (λ x. key_compare (event_at 6) (event_at x) ≢ eq) (to_list pair)
unfolding key_compare to_list
six_fresh = ((λ e. cc), ((λ e. cc), tt))

avl_insert-Inserted_example : Inserted event_at 6 (to_list pair) 9 (avl_insert event_at pair 6 9)
avl_insert-Inserted_example =
    avl_insert-Inserted event_at 6 pair 9 pair-IsSane pair-Sorted six_fresh (omega arith)

avl_insert-IsAvl_example :
    (t' : AvlTree) × (free' : ℕ) × (avl_insert event_at pair 6 9 ≡ some (t', free'))
    × IsAvl t'
    × (height pair ≤ height t')
    × (height t' ≤ height pair + 1)
avl_insert-IsAvl_example = avl_insert-IsAvl event_at 6 pair 9 pair-IsAvl (omega arith)

same_key : key_compare (event_at 4) (event_at 4) ≡ eq
unfolding key_compare first_tiebreaker
same_key = refl

avl_delete-Removed_example : Removed (to_list pair) 4 9 (avl_delete event_at pair 4 9)
avl_delete-Removed_example =
    avl_delete-Removed event_at 4 4 9 pair pair-IsSane pair-Sorted pair-Has same_key

avl_search_iff_example : (avl_search event_at pair 4 ≡ true) ↔ Stored event_at 4 (to_list pair)
avl_search_iff_example = avl_search_iff event_at 4 pair pair-Sorted

-- A balanced tree of height 4 whose child 0 has two children of height 2.
abbrev level : AvlTree
level =
    avl_node (avl_node (avl_node (single 1) 2 avl_empty 2) 3 (avl_node avl_empty 4 (single 5) 2) 3)
      6 (avl_node (single 7) 8 avl_empty 2) 4

level-IsAvl : IsAvl level
level-IsAvl = ground arith

-- A deletion at its child 1 chooses the double rotation, and leaves a node whose children have the
-- heights 2 and 0.
unbalanced :
    avl_delete event_at level 8 9
    ≡ some (
      8,
      avl_node
          (avl_node (avl_node (single 1) 2 avl_empty 2) 3 avl_empty 3)
          4
          (avl_node (single 5) 6 (single 7) 2)
          4,
      10,
    )
unfolding avl_delete key_compare delete_root avl_rebalance too_tall_0 child_heights avl_rotate_0
    avl_rotate_1 avl_fix_height ross_max avl_get_height avl_free first_tiebreaker avl_delete_min
unbalanced = refl
