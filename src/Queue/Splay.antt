-- ===== src/Queue/Splay.antt =====
-- The rotations of `splay` in core/queue/splay.c, on the sequence of the events.
use mathlib.Core.List.{append-nil, append_assoc}
use ross.Prelude.{◌≡◌, sym, ◌∙◌, [], ◌∷◌, ◌++◌}
use ross.Queue.Tree.{
  Ptr, Tree, node, left_of, right_of, TreePath, plug, splay, to_list, before, behind,
}

pub to_list-plug :
    (t : Tree) (up : TreePath) → to_list (plug t up) ≡ before up ++ (to_list t ++ behind up)
unfolding to_list plug before behind
to_list-plug t [] = sym (append-nil (to_list t))
to_list-plug t (left_of p r ∷ up) = to_list-plug (node t p r) up ∙ simp append_assoc
to_list-plug t (right_of l p ∷ up) = to_list-plug (node l p t) up ∙ simp append_assoc

-- Splaying a node from any position keeps the events of the tree and their order.
pub to_list-splay :
    (l : Tree) (n : Ptr) (r : Tree) (up : TreePath)
    → to_list (splay l n r up) ≡ before up ++ (to_list l ++ n ∷ (to_list r ++ behind up))
unfolding to_list splay before behind
to_list-splay l n r [] = simp append-nil
to_list-splay l n r (left_of p pr ∷ []) = simp append-nil
to_list-splay l n r (right_of pl p ∷ []) = simp (append-nil, append_assoc)
to_list-splay l n r (left_of p pr ∷ left_of g gr ∷ up) =
    to_list-splay l n (node r p (node pr g gr)) up ∙ simp append_assoc
to_list-splay l n r (left_of p pr ∷ right_of gl g ∷ up) =
    to_list-splay (node gl g l) n (node r p pr) up ∙ simp append_assoc
to_list-splay l n r (right_of pl p ∷ right_of gl g ∷ up) =
    to_list-splay (node (node gl g pl) p l) n r up ∙ simp append_assoc
to_list-splay l n r (right_of pl p ∷ left_of g gr ∷ up) =
    to_list-splay (node pl p l) n (node r g gr) up ∙ simp append_assoc
