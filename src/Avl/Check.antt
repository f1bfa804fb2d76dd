-- ===== src/Avl/Check.antt =====
-- `avlSanityCheck` of core/avl_tree.c.
use Prim.Native.Nat.{max}
use ross.Prelude.{
  ℕ, ◌+◌, ◌≡◌, ◌↔◌, refl, ap, ap₂, sym, ◌∙◌, Bool, true, ◌&&◌, ◌==◌, ==_iff, and_true,
}
use ross.Avl.{AvlTree, avl_empty, avl_node, avl_get_height, ross_max}
use ross.Avl.Sane.{height, IsSane, height-get, ross_max-eq}

-- `true` where no assertion fails.
unfoldable pub avl_sanity_check : AvlTree → Bool
avl_sanity_check avl_empty = true
avl_sanity_check (avl_node l k r h) =
    (avl_sanity_check l && avl_sanity_check r)
    && (h == 1 + ross_max (avl_get_height l) (avl_get_height r))

high :
    (l r : AvlTree)
    → 1 + ross_max (avl_get_height l) (avl_get_height r) ≡ 1 + max (height l) (height r)
high l r =
    ap (λ (z : ℕ). 1 + z)
      (ross_max-eq (avl_get_height l) (avl_get_height r) ∙ ap₂ max (height-get l) (height-get r))

checked-IsSane : (t : AvlTree) → avl_sanity_check t ≡ true → IsSane t
unfolding avl_sanity_check
checked-IsSane avl_empty e = tt
checked-IsSane (avl_node l k r h) e =
    let (children, root) = and_true _ _ e in
    let (left, right) = and_true _ _ children in
    (checked-IsSane l left, checked-IsSane r right, (==_iff h _).0 root ∙ high l r)

IsSane-checked : (t : AvlTree) → IsSane t → avl_sanity_check t ≡ true
unfolding avl_sanity_check
IsSane-checked avl_empty s = refl
IsSane-checked (avl_node l k r h) (left, right, root) =
    rw (IsSane-checked l left, IsSane-checked r right, (==_iff h _).1 (root ∙ sym (high l r))) refl

-- No assertion of `avlSanityCheck` fails just on the trees whose stored heights are all right.
pub avl_sanity_check_iff : (t : AvlTree) → (avl_sanity_check t ≡ true) ↔ IsSane t
avl_sanity_check_iff t = (checked-IsSane t, IsSane-checked t)
