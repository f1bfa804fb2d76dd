-- ===== src/Avl/Rebalance.antt =====
-- `avlRebalance` of core/avl_tree.c on balanced children: the height of the outcome, and where it is
-- uneven.
use Prim.Native.Nat.{max}
use ross.Prelude.{
  ℕ, ◌+◌, ◌≤◌, ◌≡◌, ◌≢◌, refl, some, arith, ltb, inl, inr, Bool-cases, lt_of_ltb, le_of_not_ltb,
}
use ross.Queue.Tree.{Ptr}
use ross.Avl.{AvlTree, avl_node, Run, avl_get_height, avl_fix_height, avl_rebalance}
use ross.Avl.Sane.{height, height-get, fix-height}
use ross.Avl.Balance.{IsAvl, Uneven, too_tall_0-Balanced, too_tall_1-Balanced}

-- What `avlRebalance` makes of children of heights `m` and `n`.
pub record Rebalanced (m n : ℕ) (out : Run AvlTree) : Type 0 where
  pub t : AvlTree
  pub returns : out ≡ some t
  pub valid : IsAvl t
  pub from_0 : m ≡ n + 2 → height t ≡ n + 2
  pub from_1 : n ≡ m + 2 → height t ≡ m + 2
  pub level : m ≤ n + 1 → n ≤ m + 1 → (height t ≡ 1 + max m n) × (m ≢ n → Uneven t)

fixed-Rebalanced :
    (l : AvlTree) (k : Ptr) (r : AvlTree)
    → IsAvl l
    → IsAvl r
    → height l ≤ height r + 1
    → height r ≤ height l + 1
    → Rebalanced (height l) (height r) (some (avl_fix_height l k r))
unfolding avl_fix_height
fixed-Rebalanced l k r p q d d' = record {
  t = avl_fix_height l k r;
  returns = refl;
  valid = (p, q, fix-height l k r, d, d');
  from_0 = λ e. absurd (omega arith);
  from_1 = λ e. absurd (omega arith);
  level = λ _ _. (fix-height l k r, λ u. inl u);
}

pub rebalance-Rebalanced :
    (l : AvlTree) (k : Ptr) (r : AvlTree) (h : ℕ)
    → IsAvl l
    → IsAvl r
    → height l ≤ height r + 2
    → height r ≤ height l + 2
    → (height l ≡ height r + 2 → Uneven l)
    → (height r ≡ height l + 2 → Uneven r)
    → Rebalanced (height l) (height r) (avl_rebalance (avl_node l k r h))
unfolding avl_rebalance
rebalance-Rebalanced l k r h p q d d' u v =
    elim (Bool-cases (ltb (avl_get_height r + 1) (avl_get_height l))) [
      | inl c ↦
          let tall : height l ≡ height r + 2 =
            omega (arith, d, lt_of_ltb _ _ c, height-get l, height-get r) in
          let out = too_tall_0-Balanced l k r h p q (u tall) tall in
          rw c record {
            t = out.t;
            returns = out.returns;
            valid = out.valid;
            from_0 = λ _. out.high;
            from_1 = λ e. absurd (omega (arith, e, tall));
            level = λ e _. absurd (omega (arith, e, tall));
          }
      | inr c ↦ rw c (elim (Bool-cases (ltb (avl_get_height l + 1) (avl_get_height r))) [
        | inl c' ↦
            let tall : height r ≡ height l + 2 =
              omega (arith, d', lt_of_ltb _ _ c', height-get l, height-get r) in
            let out = too_tall_1-Balanced l k r h p q (v tall) tall in
            rw c' record {
              t = out.t;
              returns = out.returns;
              valid = out.valid;
              from_0 = λ e. absurd (omega (arith, e, tall));
              from_1 = λ _. out.high;
              level = λ _ e. absurd (omega (arith, e, tall));
            }
        | inr c' ↦
            let low : height l ≤ height r + 1 =
              omega (arith, le_of_not_ltb _ _ c, height-get l, height-get r) in
            let low' : height r ≤ height l + 1 =
              omega (arith, le_of_not_ltb _ _ c', height-get l, height-get r) in
            rw c' (fixed-Rebalanced l k r p q low low')
      ])
    ]
