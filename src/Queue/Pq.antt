-- ===== src/Queue/Pq.antt =====
-- The operations of core/queue/splay.c on `struct tw_pq`. `less_than n e` is
-- `tw_pq_compare_less_than_rand`, or `tw_pq_compare_less_than` in a build without the tie breaker,
-- on the events at two addresses; `none` is its call of `tw_error`, which does not return.
use ross.Prelude.{
  ℕ, ◌+◌, ◌-◌, ◌%◌, ◌^◌, Bool, true, false, Option, none, some, [], ◌∷◌, ◌==◌, ltb, if◌then◌else◌,
}
use ross.Queue.Tree.{
  Ptr, null, Tree, leaf, node, left_of, right_of, TreePath, plug, splay, leftmost, join_max, locate,
}

-- Values of `tw_event_owner` that the queue writes; 0 is no owner.
abbrev pub pe_pq : ℕ
pe_pq = 2

-- `struct tw_pq`, and the `state.owner` field of the events.
pub record TwPq : Type 0 where
  pub root : Tree
  pub least : Ptr
  pub nitems : ℕ
  pub max_size : ℕ
  pub owner : Ptr → ℕ

-- `none` is a call of `tw_error`, or a link through a null pointer.
abbrev pub Run : Type 0 → Type 0
Run A = Option A

infixl 5 ◌>>=◌
abbrev pub ◌>>=◌ : {A B : Type 0} → Run A → (A → Run B) → Run B
none >>= f = none
some a >>= f = f a

abbrev pub set_owner : (Ptr → ℕ) → Ptr → ℕ → Ptr → ℕ
set_owner owner e w a = if a == e then w else owner a

-- `tw_pq_create`
pub tw_pq_create : (Ptr → ℕ) → TwPq
tw_pq_create owner = record { root = leaf; least = null; nitems = 0; max_size = 0; owner = owner }

-- The loop of `tw_pq_enqueue` down to a free place, and the new `least`.
unfoldable pub new_least : Ptr → TreePath → Ptr → Ptr
new_least e [] least = e
new_least e (left_of n r ∷ up) least = if least == n then e else least
new_least e (right_of l n ∷ up) least = least

unfoldable pub descend : (Ptr → Ptr → Option Bool) → Ptr → Tree → TreePath → Run TreePath
descend less_than e leaf up = some up
descend less_than e (node l n r) up = elim (less_than n e) [
  | none ↦ none
  | some right ↦ elim right [
    | true ↦ descend less_than e r (right_of l n ∷ up)
    | false ↦ descend less_than e l (left_of n r ∷ up)
  ]
]

-- `nitems` is an `unsigned int`.
unfoldable pub tw_pq_enqueue : (Ptr → Ptr → Option Bool) → TwPq → Ptr → Run TwPq
tw_pq_enqueue less_than st e =
    let nitems = (st.nitems + 1) % 2 ^ 32 in
    do
      up ← descend less_than e st.root []
      some (record {
        root = splay leaf e leaf up;
        least = new_least e up st.least;
        nitems = nitems;
        max_size = if ltb st.max_size nitems then nitems else st.max_size;
        owner = set_owner st.owner e pe_pq;
      })

-- `least` of the subtree that takes the place of the least node, or its parent.
unfoldable pub least_below : Tree → Ptr → Ptr
least_below leaf p = p
least_below (node l n r) p = leftmost l n r

-- The links after the least node, with right subtree `r`, is taken out. A least node that were a
-- right child would be linked below itself: a fault.
unfoldable pub unlink_least : Tree → TreePath → Run (Tree × Ptr)
unlink_least r [] = some (r, least_below r null)
unlink_least r (left_of p pr ∷ up) = some (plug r (left_of p pr ∷ up), least_below r p)
unlink_least r (right_of pl p ∷ up) = none

-- The event is `null` if the queue is empty.
unfoldable pub tw_pq_dequeue : TwPq → Run (Ptr × TwPq)
tw_pq_dequeue st = if st.nitems == 0 then some (null, st) else do
  (l, r, up) ← locate st.least st.root []
  (root, least) ← unlink_least r up
  some (
    st.least,
    record st {
      root = root;
      least = least;
      nitems = st.nitems - 1;
      owner = set_owner st.owner st.least 0;
    },
  )

-- The tree that takes the place of a node with the two subtrees.
unfoldable pub replacement : Tree → Tree → Tree
replacement leaf r = r
replacement (node ll ln lr) leaf = node ll ln lr
replacement (node ll ln lr) (node rl rn rr) = join_max ll ln lr [] (node rl rn rr)

-- The replacement under the parent, which is splayed unless the replacement is empty.
unfoldable pub relink : Tree → TreePath → Tree
relink t [] = t
relink leaf (f ∷ up) = plug leaf (f ∷ up)
relink (node l n r) (left_of p pr ∷ up) = splay (node l n r) p pr up
relink (node l n r) (right_of pl p ∷ up) = splay pl p (node l n r) up

unfoldable pub tw_pq_delete_any : TwPq → Ptr → Run TwPq
tw_pq_delete_any st r =
    let st' = record st { owner = set_owner st.owner r 0 } in
    let dequeued : Run TwPq = tw_pq_dequeue st' >>= λ out. some (out.1) in
    let deleted : Run TwPq = locate r st.root [] >>= λ (left, right, up).
    some (record st' { root = relink (replacement left right) up; nitems = st.nitems - 1 }) in
    if r == st.least then dequeued else if st.nitems == 0 then none else deleted

-- The time stamp of the least event, or `TW_STIME_MAX`.
unfoldable pub tw_pq_minimum : (Ptr → ℕ) → ℕ → TwPq → ℕ
tw_pq_minimum recv_ts stime_max st = if st.least == null then stime_max else recv_ts st.least

pub tw_pq_get_size : TwPq → ℕ
tw_pq_get_size st = st.nitems

pub tw_pq_max_size : TwPq → ℕ
tw_pq_max_size st = st.max_size
