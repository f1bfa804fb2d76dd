-- ===== src/Avl.antt =====
-- core/avl_tree.c and core/avl_tree.h: the events that came from other processing elements, by key.
-- A tree is a value; the nodes that are not in a tree are the free list of the processing element,
-- of which only the length matters. An event is known by its address.
pub mod Sane
pub mod Check
pub mod Balance
pub mod Keys
pub mod Insert
pub mod Rebalance
pub mod Grow
pub mod Delete
pub mod Search
use Prim.Native.Nat.Ordering.{lt, eq, gt}
use Prim.Native.Nat.{compare, Ordering}
use ross.Prelude.{
  ℕ, suc, ◌+◌, ◌-◌, Bool, true, false, Option, none, some, List, [], ◌∷◌, ◌++◌, ltb, leb,
  if◌then◌else◌,
}
use ross.Queue.Tree.{Ptr}
use ross.Event.{TwEvent}

pub data AvlTree : Type 0 where
  avl_empty : AvlTree
  avl_node : AvlTree → Ptr → AvlTree → ℕ → AvlTree

-- `none` is a call of `tw_error`, which does not return, or a null pointer that is followed.
abbrev pub Run : Type 0 → Type 0
Run A = Option A

infixl 5 ◌>>=◌
abbrev pub ◌>>=◌ : {A B : Type 0} → Run A → (A → Run B) → Run B
none >>= f = none
some a >>= f = f a

unfoldable pub avl_get_height : AvlTree → ℕ
avl_get_height avl_empty = 0
avl_get_height (avl_node l k r h) = h

-- `ROSS_MAX`
unfoldable pub ross_max : ℕ → ℕ → ℕ
ross_max a b = if ltb b a then a else b

-- `avlFixHeight` of the node with these children and key
unfoldable pub avl_fix_height : AvlTree → Ptr → AvlTree → AvlTree
avl_fix_height l k r = avl_node l k r (1 + ross_max (avl_get_height l) (avl_get_height r))

-- `avlRotate(root, 0)` and `avlRotate(root, 1)`
unfoldable pub avl_rotate_0 : AvlTree → Run AvlTree
avl_rotate_0 (avl_node (avl_node a x b h') y c h) = some (avl_fix_height a x (avl_fix_height b y c))
avl_rotate_0 t = none

unfoldable pub avl_rotate_1 : AvlTree → Run AvlTree
avl_rotate_1 (avl_node a x (avl_node b y c h') h) = some (avl_fix_height (avl_fix_height a x b) y c)
avl_rotate_1 t = none

-- The heights of the children of a child.
unfoldable pub child_heights : AvlTree → Run (ℕ × ℕ)
child_heights avl_empty = none
child_heights (avl_node l k r h) = some (avl_get_height l, avl_get_height r)

-- The body of the loop of `avlRebalance` where child 0, or child 1, is too tall.
unfoldable pub too_tall_0 : AvlTree → Ptr → AvlTree → ℕ → Run AvlTree
too_tall_0 l k r h = do
  (same, opposite) ← child_heights l
  if ltb opposite same
      then avl_rotate_0 (avl_node l k r h)
      else avl_rotate_1 l >>= λ l'. avl_rotate_0 (avl_node l' k r h)

unfoldable pub too_tall_1 : AvlTree → Ptr → AvlTree → ℕ → Run AvlTree
too_tall_1 l k r h = do
  (opposite, same) ← child_heights r
  if ltb opposite same
      then avl_rotate_1 (avl_node l k r h)
      else avl_rotate_0 r >>= λ r'. avl_rotate_1 (avl_node l k r' h)

unfoldable pub avl_rebalance : AvlTree → Run AvlTree
avl_rebalance avl_empty = some avl_empty
avl_rebalance (avl_node l k r h) =
    if ltb (avl_get_height r + 1) (avl_get_height l)
    then too_tall_0 l k r h
    else if ltb (avl_get_height l + 1) (avl_get_height r)
    then too_tall_1 l k r h
    else some (avl_fix_height l k r)

-- `avl_alloc` takes a node from a free list of this length; it does not give out the last one.
unfoldable pub avl_alloc : ℕ → Run ℕ
avl_alloc free = if leb free 1 then none else some (free - 1)

unfoldable pub avl_free : ℕ → ℕ
avl_free free = suc free

unfoldable pub avl_delete_min : AvlTree → ℕ → Run (Ptr × AvlTree × ℕ)
avl_delete_min avl_empty free = none
avl_delete_min (avl_node avl_empty k r h) free = avl_rebalance r >>= λ t. some (k, t, avl_free free)
avl_delete_min (avl_node (avl_node ll lk lr lh) k r h) free =
    avl_delete_min (avl_node ll lk lr lh) free >>= λ (least, l', free').
    avl_rebalance (avl_node l' k r h) >>= λ t. some (least, t, free')

-- The branch of `avlDelete` at the node that holds the event.
unfoldable pub delete_root : AvlTree → Ptr → AvlTree → ℕ → ℕ → Run (Ptr × AvlTree × ℕ)
delete_root l k avl_empty h free = avl_rebalance l >>= λ t. some (k, t, avl_free free)
delete_root l k (avl_node rl rk rr rh) h free =
    avl_delete_min (avl_node rl rk rr rh) free >>= λ (least, r', free').
    avl_rebalance (avl_node l least r' h) >>= λ t. some (k, t, free')

-- `event_tiebreaker[0]`, which is 0 in an event without a lineage.
unfoldable pub first_tiebreaker : List ℕ → ℕ
first_tiebreaker [] = 0
first_tiebreaker (x ∷ xs) = x

-- The ladder of tests in `avlSearch`, `avlInsert` and `avlDelete`: time stamp, first tie breaker,
-- event identifier, sending processing element. `lt` is child 0 and `gt` is child 1.
unfoldable pub key_compare : TwEvent → TwEvent → Ordering
key_compare a b = elim (compare a.recv_ts b.recv_ts) [
  | lt ↦ lt
  | gt ↦ gt
  | eq ↦
      elim (compare (first_tiebreaker a.sig.event_tiebreaker)
        (first_tiebreaker b.sig.event_tiebreaker)) [
          | lt ↦ lt
          | gt ↦ gt
          | eq ↦ elim (compare a.event_id b.event_id) [
            | lt ↦ lt
            | gt ↦ gt
            | eq ↦ compare a.send_pe b.send_pe
          ]
        ]
]

module _ (event : Ptr → TwEvent) where
  unfoldable pub avl_search : AvlTree → Ptr → Bool
  avl_search avl_empty key = false
  avl_search (avl_node l k r h) key = elim (key_compare (event key) (event k)) [
    | eq ↦ true
    | lt ↦ avl_search l key
    | gt ↦ avl_search r key
  ]

  -- The tree and the free list. An event with the key of another goes to its left.
  unfoldable pub avl_insert : AvlTree → Ptr → ℕ → Run (AvlTree × ℕ)
  avl_insert avl_empty key free =
      avl_alloc free >>= λ free'. some (avl_node avl_empty key avl_empty 1, free')
  avl_insert (avl_node l k r h) key free = elim (key_compare (event key) (event k)) [
    | gt ↦ avl_insert r key free >>= λ (r', free').
        avl_rebalance (avl_node l k r' h) >>= λ t. some (t, free')
    | _ ↦ avl_insert l key free >>= λ (l', free').
        avl_rebalance (avl_node l' k r h) >>= λ t. some (t, free')
  ]

  -- The stored event with the key, the tree and the free list.
  unfoldable pub avl_delete : AvlTree → Ptr → ℕ → Run (Ptr × AvlTree × ℕ)
  avl_delete avl_empty key free = none
  avl_delete (avl_node l k r h) key free = elim (key_compare (event key) (event k)) [
    | eq ↦ delete_root l k r h free
    | lt ↦ avl_delete l key free >>= λ (target, l', free').
        avl_rebalance (avl_node l' k r h) >>= λ t. some (target, t, free')
    | gt ↦ avl_delete r key free >>= λ (target, r', free').
        avl_rebalance (avl_node l k r' h) >>= λ t. some (target, t, free')
  ]

-- `avlDestroy` gives every node back, and leaves the empty tree.
unfoldable pub avl_destroy : AvlTree → ℕ → ℕ
avl_destroy avl_empty free = free
avl_destroy (avl_node l k r h) free = avl_free (avl_destroy r (avl_destroy l free))

-- The events in the order of `avlPrintKeys`.
unfoldable pub to_list : AvlTree → List Ptr
to_list avl_empty = []
to_list (avl_node l k r h) = to_list l ++ k ∷ to_list r
