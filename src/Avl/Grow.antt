-- ===== src/Avl/Grow.antt =====
-- `avlInsert` of core/avl_tree.c on balanced trees.
use Prim.Native.Nat.{max}
use ross.Prelude.{ℕ, ◌+◌, ◌-◌, ◌≤◌, ◌<◌, ◌≡◌, ◌⊎◌, refl, sym, subst, some, arith, inl, inr}
use ross.Event.{TwEvent}
use ross.Queue.Tree.{Ptr}
use ross.Avl.{AvlTree, avl_empty, avl_node, Run, ◌>>=◌, avl_rebalance, avl_insert, key_compare}
use ross.Avl.Keys.{Ordering-cases}
use ross.Avl.Sane.{height}
use ross.Avl.Insert.{alloc-some}
use ross.Avl.Balance.{IsAvl, Uneven}
use ross.Avl.Rebalance.{rebalance-Rebalanced}

-- A balanced tree came out that is at most one higher, and if so then uneven.
record Grown (n : ℕ) (out : Run (AvlTree × ℕ)) : Type 0 where
  t' : AvlTree
  free' : ℕ
  returns : out ≡ some (t', free')
  valid : IsAvl t'
  grows : (height t' ≡ n) ⊎ ((height t' ≡ n + 1) × Uneven t')

near-cases : (n m : ℕ) → n ≤ m + 1 → m ≤ n + 1 → (n ≡ m + 1) ⊎ ((n ≡ m) ⊎ (n + 1 ≡ m))
near-cases n m d d' = ground arith

abbrev Regrown : ℕ → Run AvlTree → Type 0
Regrown n out =
    (t : AvlTree) × (out ≡ some t) × IsAvl t × ((height t ≡ n) ⊎ ((height t ≡ n + 1) × Uneven t))

module _ (l : AvlTree) (k : Ptr) (r : AvlTree) (h n : ℕ) (p : IsAvl l) (q : IsAvl r) where
  grown_0 :
      n ≤ height r + 1
      → height r ≤ n + 1
      → (height l ≡ n) ⊎ ((height l ≡ n + 1) × Uneven l)
      → Regrown (1 + max n (height r)) (avl_rebalance (avl_node l k r h))
  grown_0 d d' (inl e) =
      let out =
        rebalance-Rebalanced l k r h p q (omega arith) (omega arith) (λ far. absurd (omega arith))
          (λ far. absurd (omega arith)) in
      (
        out.t,
        out.returns,
        out.valid,
        inl (omega (arith, (out.level (omega arith) (omega arith)).0)),
      )
  grown_0 d d' (inr (e, u)) =
      let out =
        rebalance-Rebalanced l k r h p q (omega arith) (omega arith) (λ _. u)
          (λ far. absurd (omega arith)) in
      (
        out.t,
        out.returns,
        out.valid,
        elim (near-cases n (height r) d d') [
          | inl c ↦ inl (omega (arith, out.from_0 (omega arith)))
          | inr (inl c) ↦
              let level = out.level (omega arith) (omega arith) in
              inr (omega (arith, level.0), level.1 (λ same. absurd (omega arith)))
          | inr (inr c) ↦ inl (omega (arith, (out.level (omega arith) (omega arith)).0))
        ],
      )

  grown_1 :
      n ≤ height l + 1
      → height l ≤ n + 1
      → (height r ≡ n) ⊎ ((height r ≡ n + 1) × Uneven r)
      → Regrown (1 + max (height l) n) (avl_rebalance (avl_node l k r h))
  grown_1 d d' (inl e) =
      let out =
        rebalance-Rebalanced l k r h p q (omega arith) (omega arith) (λ far. absurd (omega arith))
          (λ far. absurd (omega arith)) in
      (
        out.t,
        out.returns,
        out.valid,
        inl (omega (arith, (out.level (omega arith) (omega arith)).0)),
      )
  grown_1 d d' (inr (e, u)) =
      let out =
        rebalance-Rebalanced l k r h p q (omega arith) (omega arith) (λ far. absurd (omega arith))
          (λ _. u) in
      (
        out.t,
        out.returns,
        out.valid,
        elim (near-cases n (height l) d d') [
          | inl c ↦ inl (omega (arith, out.from_1 (omega arith)))
          | inr (inl c) ↦
              let level = out.level (omega arith) (omega arith) in
              inr (omega (arith, level.0), level.1 (λ same. absurd (omega arith)))
          | inr (inr c) ↦ inl (omega (arith, (out.level (omega arith) (omega arith)).0))
        ],
      )

module _ (event : Ptr → TwEvent) (key : Ptr) where
  module _ (l : AvlTree) (k : Ptr) (r : AvlTree) (h : ℕ) (valid : IsAvl (avl_node l k r h)) where
    Grown-left :
        {out : Run (AvlTree × ℕ)}
        → Grown (height l) out
        → Grown h
            (out >>= λ (l', free'). avl_rebalance (avl_node l' k r h) >>= λ t. some (t, free'))
    Grown-left put =
        let (pl, pr, e, d, d') = valid in
        let (t, out, is_avl, grows) = grown_0 put.t' k r h (height l) put.valid pr d d' put.grows in
        record {
          t' = t;
          free' = put.free';
          returns = rw (put.returns, out) refl;
          valid = is_avl;
          grows = subst (λ n. (height t ≡ n) ⊎ ((height t ≡ n + 1) × Uneven t)) (sym e) grows;
        }

    Grown-right :
        {out : Run (AvlTree × ℕ)}
        → Grown (height r) out
        → Grown h
            (out >>= λ (r', free'). avl_rebalance (avl_node l k r' h) >>= λ t. some (t, free'))
    Grown-right put =
        let (pl, pr, e, d, d') = valid in
        let (t, out, is_avl, grows) = grown_1 l k put.t' h (height r) pl put.valid d' d put.grows in
        record {
          t' = t;
          free' = put.free';
          returns = rw (put.returns, out) refl;
          valid = is_avl;
          grows = subst (λ n. (height t ≡ n) ⊎ ((height t ≡ n + 1) × Uneven t)) (sym e) grows;
        }

  avl_insert-Grown :
      (t : AvlTree) (free : ℕ) → IsAvl t → 1 < free → Grown (height t) (avl_insert event t key free)
  unfolding avl_insert
  avl_insert-Grown avl_empty free p room = record {
    t' = avl_node avl_empty key avl_empty 1;
    free' = free - 1;
    returns = rw (alloc-some free room) refl;
    valid = (tt, tt, refl, omega arith, omega arith);
    grows = inr (refl, inr refl);
  }
  avl_insert-Grown (avl_node l k r h) free p room =
      elim (Ordering-cases (key_compare (event key) (event k))) [
        | inl c ↦ rw (c, avl_insert) (Grown-left l k r h p (avl_insert-Grown l free p.0 room))
        | inr (inl c) ↦
            rw (c, avl_insert) (Grown-right l k r h p (avl_insert-Grown r free p.1 room))
        | inr (inr c) ↦ rw (c, avl_insert) (Grown-left l k r h p (avl_insert-Grown l free p.0 room))
      ]

  -- While the free list has two nodes, `avlInsert` into a balanced tree returns a balanced tree that
  -- is at most one higher.
  pub avl_insert-IsAvl :
      (t : AvlTree) (free : ℕ)
      → IsAvl t
      → 1 < free
      → (t' : AvlTree) × (free' : ℕ) × (avl_insert event t key free ≡ some (t', free'))
        × IsAvl t'
        × (height t ≤ height t')
        × (height t' ≤ height t + 1)
  avl_insert-IsAvl t free p room =
      let put = avl_insert-Grown t free p room in
      let low : height t ≤ height put.t' = elim put.grows [
        | inl e ↦ omega arith
        | inr (e, u) ↦ omega arith
      ] in
      let high : height put.t' ≤ height t + 1 = elim put.grows [
        | inl e ↦ omega arith
        | inr (e, u) ↦ omega arith
      ] in
      (put.t', put.free', put.returns, put.valid, low, high)
