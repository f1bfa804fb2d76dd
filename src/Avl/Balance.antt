-- ===== src/Avl/Balance.antt =====
-- Balance of the trees of core/avl_tree.c: the heights of two siblings differ by 1 at most. About the
-- rotations at a node whose child is too tall.
use Prim.Native.Nat.{max}
use ross.Prelude.{
  ℕ, ◌+◌, ◌≤◌, ◌<◌, ◌≡◌, ◌≢◌, ◌⊎◌, refl, true, false, some, arith, ltb, inl, inr, Bool-cases,
  lt_of_ltb,
}
use ross.Queue.Tree.{Ptr}
use ross.Avl.{
  AvlTree, avl_empty, avl_node, Run, ◌>>=◌, avl_get_height, avl_fix_height, avl_rotate_0,
  avl_rotate_1, child_heights, too_tall_0, too_tall_1,
}
use ross.Avl.Sane.{height, height-get, fix-height}

-- Right heights and balance.
abbrev pub IsAvl : AvlTree → Type 0
IsAvl avl_empty = Unit {0}
IsAvl (avl_node l k r h) =
    IsAvl l
    × IsAvl r
    × (h ≡ 1 + max (height l) (height r))
    × (height l ≤ height r + 1)
    × (height r ≤ height l + 1)

-- The children are not of one height, or there are none.
abbrev pub Uneven : AvlTree → Type 0
Uneven avl_empty = Unit {0}
Uneven (avl_node l k r h) = (height l ≢ height r) ⊎ (h ≡ 1)

-- A balanced tree came out, of the height `n` that is known.
pub record Balanced (n : ℕ) (out : Run AvlTree) : Type 0 where
  pub t : AvlTree
  pub returns : out ≡ some t
  pub valid : IsAvl t
  pub high : height t ≡ n

single_0 :
    (a : AvlTree) (x : Ptr) (b : AvlTree) (h' : ℕ) (y : Ptr) (c : AvlTree) (h : ℕ)
    → IsAvl a
    → IsAvl b
    → IsAvl c
    → height a ≡ height c + 1
    → height b ≡ height c
    → Balanced (height c + 2) (avl_rotate_0 (avl_node (avl_node a x b h') y c h))
unfolding avl_rotate_0 avl_fix_height
single_0 a x b h' y c h p q r e d = record {
  t = avl_fix_height a x (avl_fix_height b y c);
  returns = refl;
  valid = (
    p,
    (q, r, fix-height b y c, omega arith, omega arith),
    fix-height a x (avl_fix_height b y c),
    omega (arith, fix-height b y c),
    omega (arith, fix-height b y c),
  );
  high = omega (arith, fix-height a x (avl_fix_height b y c), fix-height b y c);
}

single_1 :
    (a : AvlTree) (x : Ptr) (b : AvlTree) (y : Ptr) (c : AvlTree) (h' h : ℕ)
    → IsAvl a
    → IsAvl b
    → IsAvl c
    → height c ≡ height a + 1
    → height b ≡ height a
    → Balanced (height a + 2) (avl_rotate_1 (avl_node a x (avl_node b y c h') h))
unfolding avl_rotate_1 avl_fix_height
single_1 a x b y c h' h p q r e d = record {
  t = avl_fix_height (avl_fix_height a x b) y c;
  returns = refl;
  valid = (
    (p, q, fix-height a x b, omega arith, omega arith),
    r,
    fix-height (avl_fix_height a x b) y c,
    omega (arith, fix-height a x b),
    omega (arith, fix-height a x b),
  );
  high = omega (arith, fix-height (avl_fix_height a x b) y c, fix-height a x b);
}

-- The tree that a double rotation makes.
abbrev doubled : AvlTree → Ptr → AvlTree → Ptr → AvlTree → Ptr → AvlTree → AvlTree
doubled a x bl z br y c = avl_fix_height (avl_fix_height a x bl) z (avl_fix_height br y c)

doubled-IsAvl :
    (a : AvlTree) (x : Ptr) (bl : AvlTree) (z : Ptr) (br : AvlTree) (bh : ℕ) (y : Ptr) (c : AvlTree)
    → IsAvl a
    → IsAvl (avl_node bl z br bh)
    → IsAvl c
    → bh ≡ height c + 1
    → height a ≡ height c
    → IsAvl (doubled a x bl z br y c) × (height (doubled a x bl z br y c) ≡ height c + 2)
unfolding avl_fix_height
doubled-IsAvl a x bl z br bh y c p (ql, qr, e, d, d') r eb ea =
    let left = fix-height a x bl in
    let right = fix-height br y c in
    let whole = fix-height (avl_fix_height a x bl) z (avl_fix_height br y c) in
    (
      (
        (p, ql, left, omega arith, omega arith),
        (qr, r, right, omega arith, omega arith),
        whole,
        omega (arith, left, right),
        omega (arith, left, right),
      ),
      omega (arith, left, right, whole),
    )

-- Which grandchild is the taller one.
module _ {a b n h : ℕ} (e : h ≡ 1 + max a b) (near : a ≤ b + 1) (near' : b ≤ a + 1)
    (tall : h ≡ n + 2) where
  taller : b < a → (a ≡ n + 1) × (b ≡ n)
  taller c = (omega arith, omega arith)

  not_taller : (a ≢ b) ⊎ (h ≡ 1) → ¬ (b < a) → (b ≡ n + 1) × (a ≡ n)
  not_taller (inl u) c = (omega (arith, u, c), omega (arith, u, c))
  not_taller (inr u) c = absurd (omega arith)

  taller_r : a < b → (b ≡ n + 1) × (a ≡ n)
  taller_r c = (omega arith, omega arith)

  not_taller_r : (a ≢ b) ⊎ (h ≡ 1) → ¬ (a < b) → (a ≡ n + 1) × (b ≡ n)
  not_taller_r (inl u) c = (omega (arith, u, c), omega (arith, u, c))
  not_taller_r (inr u) c = absurd (omega arith)

-- The test on the stored heights of two trees.
module _ (a b : AvlTree) where
  get-lt : ltb (avl_get_height a) (avl_get_height b) ≡ true → height a < height b
  get-lt c =
      omega (arith, lt_of_ltb (avl_get_height a) (avl_get_height b) c, height-get a, height-get b)

  get-not_lt : ltb (avl_get_height a) (avl_get_height b) ≡ false → ¬ (height a < height b)
  get-not_lt c less =
      no_lt (avl_get_height a) (avl_get_height b) c
        (omega (arith, less, height-get a, height-get b))
    where
      no_lt : (m n : ℕ) → ltb m n ≡ false → m < n → ⊥
      no_lt m n c less = ground arith

double_0 :
    (a : AvlTree) (x : Ptr) (b : AvlTree) (h' : ℕ) (y : Ptr) (c : AvlTree) (h : ℕ)
    → IsAvl a
    → IsAvl b
    → IsAvl c
    → height b ≡ height c + 1
    → height a ≡ height c
    → Balanced
        (height c + 2)
        (avl_rotate_1 (avl_node a x b h') >>= λ l'. avl_rotate_0 (avl_node l' y c h))
unfolding avl_rotate_0 avl_rotate_1 avl_fix_height
double_0 a x avl_empty h' y c h p q r eb ea = absurd (omega arith)
double_0 a x (avl_node bl z br bh) h' y c h p q r eb ea =
    let out = doubled-IsAvl a x bl z br bh y c p q r eb ea in
    record { t = doubled a x bl z br y c; returns = refl; valid = out.0; high = out.1 }

double_1 :
    (a : AvlTree) (x : Ptr) (b : AvlTree) (y : Ptr) (c : AvlTree) (h' h : ℕ)
    → IsAvl a
    → IsAvl b
    → IsAvl c
    → height b ≡ height a + 1
    → height c ≡ height a
    → Balanced
        (height a + 2)
        (avl_rotate_0 (avl_node b y c h') >>= λ r'. avl_rotate_1 (avl_node a x r' h))
unfolding avl_rotate_0 avl_rotate_1 avl_fix_height
double_1 a x avl_empty y c h' h p q r eb ec = absurd (omega arith)
double_1 a x (avl_node bl z br bh) y c h' h p q r eb ec =
    let out = doubled-IsAvl a x bl z br bh y c p q r (omega arith) (omega arith) in
    record {
      t = doubled a x bl z br y c;
      returns = refl;
      valid = out.0;
      high = omega (arith, out.1);
    }

pub too_tall_0-Balanced :
    (l : AvlTree) (k : Ptr) (r : AvlTree) (h : ℕ)
    → IsAvl l
    → IsAvl r
    → Uneven l
    → height l ≡ height r + 2
    → Balanced (height r + 2) (too_tall_0 l k r h)
unfolding too_tall_0 child_heights
too_tall_0-Balanced avl_empty k r h p q u tall = absurd (omega arith)
too_tall_0-Balanced (avl_node a x b h') k r h (pa, pb, e, d, d') q u tall =
    elim (Bool-cases (ltb (avl_get_height b) (avl_get_height a))) [
      | inl c ↦
          let which = taller e d d' tall (get-lt b a c) in
          rw c (single_0 a x b h' k r h pa pb q which.0 which.1)
      | inr c ↦
          let which = not_taller e d d' tall u (get-not_lt b a c) in
          rw c (double_0 a x b h' k r h pa pb q which.0 which.1)
    ]

pub too_tall_1-Balanced :
    (l : AvlTree) (k : Ptr) (r : AvlTree) (h : ℕ)
    → IsAvl l
    → IsAvl r
    → Uneven r
    → height r ≡ height l + 2
    → Balanced (height l + 2) (too_tall_1 l k r h)
unfolding too_tall_1 child_heights
too_tall_1-Balanced l k avl_empty h p q u tall = absurd (omega arith)
too_tall_1-Balanced l k (avl_node b y c h') h p (pb, pc, e, d, d') u tall =
    elim (Bool-cases (ltb (avl_get_height b) (avl_get_height c))) [
      | inl t ↦
          let which = taller_r e d d' tall (get-lt b c t) in
          rw t (single_1 l k b y c h' h p pb pc which.0 which.1)
      | inr t ↦
          let which = not_taller_r e d d' tall u (get-not_lt b c t) in
          rw t (double_1 l k b y c h' h p pb pc which.0 which.1)
    ]
