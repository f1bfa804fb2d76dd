-- ===== src/Avl/Sane.antt =====
-- What `avlSanityCheck` of core/avl_tree.c asks of a tree, that the stored heights are right, and
-- `avlRebalance`.
use Prim.Native.Nat.{max}
use mathlib.Core.List.{append_assoc}
use ross.Prelude.{ℕ, ◌+◌, ◌<◌, ◌≡◌, refl, some, List, ◌∷◌, ◌++◌, arith, ltb, inl, inr, Bool-cases}
use ross.Queue.Tree.{Ptr}
use ross.Avl.{
  AvlTree, avl_empty, avl_node, Run, ◌>>=◌, avl_get_height, ross_max, avl_fix_height, avl_rotate_0,
  avl_rotate_1, child_heights, too_tall_0, too_tall_1, avl_rebalance, to_list,
}

abbrev pub height : AvlTree → ℕ
height avl_empty = 0
height (avl_node l k r h) = h

abbrev pub IsSane : AvlTree → Type 0
IsSane avl_empty = Unit {0}
IsSane (avl_node l k r h) = IsSane l × IsSane r × (h ≡ 1 + max (height l) (height r))

pub height-get : (t : AvlTree) → avl_get_height t ≡ height t
unfolding avl_get_height
height-get avl_empty = refl
height-get (avl_node l k r h) = refl

pub ross_max-eq : (a b : ℕ) → ross_max a b ≡ max a b
unfolding ross_max
ross_max-eq a b = ground arith

pub fix-height :
    (l : AvlTree) (k : Ptr) (r : AvlTree)
    → height (avl_fix_height l k r) ≡ 1 + max (height l) (height r)
unfolding avl_fix_height
fix-height l k r =
    omega (arith, ross_max-eq (avl_get_height l) (avl_get_height r), height-get l, height-get r)

-- A call returned a tree that passes the check and holds these events.
pub record Returned (xs : List Ptr) (out : Run AvlTree) : Type 0 where
  pub t : AvlTree
  pub returns : out ≡ some t
  pub sane : IsSane t
  pub holds : to_list t ≡ xs

single_0 :
    (a : AvlTree) (x : Ptr) (b : AvlTree) (h' : ℕ) (y : Ptr) (c : AvlTree) (h : ℕ)
    → IsSane a
    → IsSane b
    → IsSane c
    → Returned
        (to_list (avl_node a x b h') ++ y ∷ to_list c)
        (avl_rotate_0 (avl_node (avl_node a x b h') y c h))
unfolding avl_rotate_0 avl_fix_height to_list
single_0 a x b h' y c h p q r = record {
  t = avl_fix_height a x (avl_fix_height b y c);
  returns = refl;
  sane = (p, (q, r, fix-height b y c), fix-height a x (avl_fix_height b y c));
  holds = simp append_assoc;
}

single_1 :
    (a : AvlTree) (x : Ptr) (b : AvlTree) (y : Ptr) (c : AvlTree) (h' h : ℕ)
    → IsSane a
    → IsSane b
    → IsSane c
    → Returned
        (to_list a ++ x ∷ to_list (avl_node b y c h'))
        (avl_rotate_1 (avl_node a x (avl_node b y c h') h))
unfolding avl_rotate_1 avl_fix_height to_list
single_1 a x b y c h' h p q r = record {
  t = avl_fix_height (avl_fix_height a x b) y c;
  returns = refl;
  sane = ((p, q, fix-height a x b), r, fix-height (avl_fix_height a x b) y c);
  holds = simp append_assoc;
}

-- A double rotation reaches the grandchild, which its height shows to be there.
double_0 :
    (a : AvlTree) (x : Ptr) (b : AvlTree) (h' : ℕ) (y : Ptr) (c : AvlTree) (h : ℕ)
    → IsSane a
    → IsSane b
    → IsSane c
    → 0 < height b
    → Returned
        (to_list (avl_node a x b h') ++ y ∷ to_list c)
        (avl_rotate_1 (avl_node a x b h') >>= λ l'. avl_rotate_0 (avl_node l' y c h))
unfolding avl_rotate_0 avl_rotate_1 avl_fix_height to_list
double_0 a x avl_empty h' y c h p q r some_b = absurd (omega arith)
double_0 a x (avl_node bl z br bh) h' y c h p q r some_b = record {
  t = avl_fix_height (avl_fix_height a x bl) z (avl_fix_height br y c);
  returns = refl;
  sane = (
    (p, q.0, fix-height a x bl),
    (q.1, r, fix-height br y c),
    fix-height (avl_fix_height a x bl) z (avl_fix_height br y c),
  );
  holds = simp append_assoc;
}

double_1 :
    (a : AvlTree) (x : Ptr) (b : AvlTree) (y : Ptr) (c : AvlTree) (h' h : ℕ)
    → IsSane a
    → IsSane b
    → IsSane c
    → 0 < height b
    → Returned
        (to_list a ++ x ∷ to_list (avl_node b y c h'))
        (avl_rotate_0 (avl_node b y c h') >>= λ r'. avl_rotate_1 (avl_node a x r' h))
unfolding avl_rotate_0 avl_rotate_1 avl_fix_height to_list
double_1 a x avl_empty y c h' h p q r some_b = absurd (omega arith)
double_1 a x (avl_node bl z br bh) y c h' h p q r some_b = record {
  t = avl_fix_height (avl_fix_height a x bl) z (avl_fix_height br y c);
  returns = refl;
  sane = (
    (p, q.0, fix-height a x bl),
    (q.1, r, fix-height br y c),
    fix-height (avl_fix_height a x bl) z (avl_fix_height br y c),
  );
  holds = simp append_assoc;
}

too_tall_0-Returned :
    (l : AvlTree) (k : Ptr) (r : AvlTree) (h : ℕ)
    → IsSane l
    → IsSane r
    → 1 < height l
    → Returned (to_list l ++ k ∷ to_list r) (too_tall_0 l k r h)
unfolding too_tall_0 child_heights
too_tall_0-Returned avl_empty k r h p q tall = absurd (omega arith)
too_tall_0-Returned (avl_node a x b h') k r h p q tall =
    elim (Bool-cases (ltb (avl_get_height b) (avl_get_height a))) [
      | inl e ↦ rw e (single_0 a x b h' k r h p.0 p.1 q)
      | inr e ↦
          rw e (double_0 a x b h' k r h p.0 p.1 q (ground (arith, p.2, height-get a, height-get b)))
    ]

too_tall_1-Returned :
    (l : AvlTree) (k : Ptr) (r : AvlTree) (h : ℕ)
    → IsSane l
    → IsSane r
    → 1 < height r
    → Returned (to_list l ++ k ∷ to_list r) (too_tall_1 l k r h)
unfolding too_tall_1 child_heights
too_tall_1-Returned l k avl_empty h p q tall = absurd (omega arith)
too_tall_1-Returned l k (avl_node b y c h') h p q tall =
    elim (Bool-cases (ltb (avl_get_height b) (avl_get_height c))) [
      | inl e ↦ rw e (single_1 l k b y c h' h p q.0 q.1)
      | inr e ↦
          rw e (double_1 l k b y c h' h p q.0 q.1 (ground (arith, q.2, height-get b, height-get c)))
    ]

fixed :
    (l : AvlTree) (k : Ptr) (r : AvlTree)
    → IsSane l
    → IsSane r
    → Returned (to_list l ++ k ∷ to_list r) (some (avl_fix_height l k r))
unfolding avl_fix_height to_list
fixed l k r p q = record {
  t = avl_fix_height l k r;
  returns = refl;
  sane = (p, q, fix-height l k r);
  holds = refl;
}

-- `avlRebalance` of a node whose children pass the check, whatever their heights, returns a tree
-- that passes the check and holds the same events in the same order.
pub avl_rebalance-Returned :
    (l : AvlTree) (k : Ptr) (r : AvlTree) (h : ℕ)
    → IsSane l
    → IsSane r
    → Returned (to_list l ++ k ∷ to_list r) (avl_rebalance (avl_node l k r h))
unfolding avl_rebalance
avl_rebalance-Returned l k r h p q =
    elim (Bool-cases (ltb (avl_get_height r + 1) (avl_get_height l))) [
      | inl e ↦ rw e (too_tall_0-Returned l k r h p q (ground (arith, height-get l)))
      | inr e ↦ rw e (elim (Bool-cases (ltb (avl_get_height l + 1) (avl_get_height r))) [
        | inl d ↦ rw d (too_tall_1-Returned l k r h p q (ground (arith, height-get r)))
        | inr d ↦ rw d (fixed l k r p q)
      ])
    ]

-- The same of the root that is left when a node is spliced out.
pub avl_rebalance-root : (t : AvlTree) → IsSane t → Returned (to_list t) (avl_rebalance t)
unfolding to_list avl_rebalance
avl_rebalance-root avl_empty p = record { t = avl_empty; returns = refl; sane = tt; holds = refl }
avl_rebalance-root (avl_node l k r h) p = avl_rebalance-Returned l k r h p.0 p.1
