-- ===== src/Queue/Tree.antt =====
-- The splay tree of core/queue/splay.c. A node is an event, known by its address; its LEFT and RIGHT
-- fields are the subtrees. Its UP fields are the path from the node to the root.
use ross.Prelude.{ℕ, Option, none, some, List, [], ◌∷◌, ◌++◌, ◌==◌, if◌then◌else◌}

abbrev pub Ptr : Type 0
Ptr = ℕ

abbrev pub null : Ptr
null = 0

pub data Tree : Type 0 where
  leaf : Tree
  node : Tree → Ptr → Tree → Tree

-- A parent of a node: the node is its left child, or its right child.
pub data Frame : Type 0 where
  left_of : Ptr → Tree → Frame
  right_of : Tree → Ptr → Frame

-- From the parent up to the root.
abbrev pub TreePath : Type 0
TreePath = List Frame

unfoldable pub plug : Tree → TreePath → Tree
plug t [] = t
plug t (left_of p r ∷ up) = plug (node t p r) up
plug t (right_of l p ∷ up) = plug (node l p t) up

-- `splay(n)`, for the node `n` with subtrees `l` and `r`: a rotation at the root, or two rotations
-- below a grandparent.
unfoldable pub splay : Tree → Ptr → Tree → TreePath → Tree
splay l n r [] = node l n r
splay l n r (left_of p pr ∷ []) = node l n (node r p pr)
splay l n r (right_of pl p ∷ []) = node (node pl p l) n r
splay l n r (left_of p pr ∷ left_of g gr ∷ up) = splay l n (node r p (node pr g gr)) up
splay l n r (left_of p pr ∷ right_of gl g ∷ up) = splay (node gl g l) n (node r p pr) up
splay l n r (right_of pl p ∷ right_of gl g ∷ up) = splay (node (node gl g pl) p l) n r up
splay l n r (right_of pl p ∷ left_of g gr ∷ up) = splay (node pl p l) n (node r g gr) up

-- `for (; LEFT(tmp); tmp = LEFT(tmp));`
unfoldable pub leftmost : Tree → Ptr → Tree → Ptr
leftmost leaf n r = n
leftmost (node ll ln lr) n r = leftmost ll ln lr

-- `RIGHT(n) = tmp;`
unfoldable pub set_right : Tree → Tree → Tree
set_right leaf tmp = leaf
set_right (node l n r) tmp = node l n tmp

-- `for (; RIGHT(n); n = RIGHT(n)); splay(n); RIGHT(n) = tmp;` below a node with no parent.
unfoldable pub join_max : Tree → Ptr → Tree → TreePath → Tree → Tree
join_max l n leaf up tmp = set_right (splay l n leaf up) tmp
join_max l n (node rl rn rr) up tmp = join_max rl rn rr (right_of l n ∷ up) tmp

abbrev pub or_else {ℓ} : {A : Type ℓ} → Option A → Option A → Option A
or_else none y = y
or_else (some x) y = some x

-- The links of the node at an address.
unfoldable pub locate : Ptr → Tree → TreePath → Option (Tree × Tree × TreePath)
locate a leaf up = none
locate a (node l n r) up =
    let below = or_else (locate a l (left_of n r ∷ up)) (locate a r (right_of l n ∷ up)) in
    if n == a then some (l, r, up) else below

-- The events in order.
unfoldable pub to_list : Tree → List Ptr
to_list leaf = []
to_list (node l n r) = to_list l ++ n ∷ to_list r

-- The events before and behind a position.
unfoldable pub before : TreePath → List Ptr
before [] = []
before (left_of p r ∷ up) = before up
before (right_of l p ∷ up) = before up ++ (to_list l ++ p ∷ [])

unfoldable pub behind : TreePath → List Ptr
behind [] = []
behind (left_of p r ∷ up) = p ∷ (to_list r ++ behind up)
behind (right_of l p ∷ up) = behind up
