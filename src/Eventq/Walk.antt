-- ===== src/Eventq/Walk.antt =====
-- The walks of core/tw-eventq.h along `prev`.
use mathlib.Core.List.{reverse-cons}
use ross.Prelude.{
  ℕ, zero, suc, ◌+◌, ◌<◌, ◌≡◌, refl, sym, ap, ◌∙◌, subst, Bool, true, false, some, List, [], ◌∷◌,
  ◌++◌, reverse, ◌==◌, All, All-append, arith, length, length-append,
}
use ross.Queue.Tree.{Ptr, null}
use ross.Eventq.{Links}
use ross.Eventq.Linked.{first_or, last_or, Linked}
use ross.Eventq.Collect.{older_walk}

-- The events that `prev` leads to, from the first one on, and what it leads to behind them.
abbrev pub Back : (Ptr → Ptr) → Ptr → List Ptr → Type 0
Back prev stop [] = Unit {0}
Back prev stop (e ∷ es) = (0 < e) × (prev e ≡ first_or es stop) × Back prev stop es

Back-snoc :
    (prev : Ptr → Ptr) (es : List Ptr) (x b : Ptr)
    → Back prev x es
    → 0 < x
    → prev x ≡ b
    → Back prev b (es ++ x ∷ [])
Back-snoc prev [] x b k pos e = (pos, e, tt)
Back-snoc prev (y ∷ []) x b k pos e = (k.0, k.1, Back-snoc prev [] x b tt pos e)
Back-snoc prev (y ∷ z ∷ zs) x b k pos e = (k.0, k.1, Back-snoc prev (z ∷ zs) x b k.2 pos e)

pub Linked-Back :
    (σ : Links) (b : Ptr) (xs : List Ptr) (a : Ptr) → Linked σ b xs a → Back σ.prev b (reverse xs)
Linked-Back σ b [] a l = tt
Linked-Back σ b (x ∷ xs) a (pos, p, n, l) =
    subst (Back σ.prev b) (sym (reverse-cons x xs))
      (Back-snoc σ.prev (reverse xs) x b (Linked-Back σ x xs a l) pos p)

pub All-reverse : (P : Ptr → Type 0) (xs : List Ptr) → All P xs → All P (reverse xs)
All-reverse P [] p = tt
All-reverse P (x ∷ xs) p =
    subst (All P) (sym (reverse-cons x xs))
      (All-append P (reverse xs) (x ∷ []) (All-reverse P xs p.1) (p.0, tt))

pub length-reverse : (xs : List Ptr) → length (reverse xs) ≡ length xs
length-reverse [] = refl
length-reverse (x ∷ xs) =
    ap length (reverse-cons x xs)
    ∙ length-append (reverse xs) (x ∷ [])
    ∙ omega (arith, length-reverse xs)

pub first_or-reverse : (xs : List Ptr) (b : Ptr) → first_or (reverse xs) b ≡ last_or b xs
first_or-reverse [] b = refl
first_or-reverse (x ∷ xs) b =
    ap (λ z. first_or z b) (reverse-cons x xs) ∙ snoc (reverse xs) x b ∙ first_or-reverse xs x
  where
    snoc : (ys : List Ptr) (x b : Ptr) → first_or (ys ++ x ∷ []) b ≡ first_or ys x
    snoc [] x b = refl
    snoc (y ∷ ys) x b = refl

pub older_walk-Back :
    (fuel : ℕ) (prev : Ptr → Ptr) (older : Ptr → Bool) (n : Ptr) (es : List Ptr) (cnt : ℕ)
    → Back prev n es
    → 0 < n
    → older n ≡ false
    → All (λ e. older e ≡ true) es
    → length es < fuel
    → older_walk fuel prev older (first_or es n) cnt ≡ some (n, cnt + length es)
unfolding older_walk
older_walk-Back zero prev older n es cnt k pos stop o f = absurd (omega arith)
older_walk-Back (suc fuel) prev older n [] cnt k pos stop o f =
    rw (allocated n pos, stop) (ap (λ z. some (n, z)) (omega arith))
  where
    allocated : (z : Ptr) → 0 < z → (z == null) ≡ false
    allocated z pos = ground arith
older_walk-Back (suc fuel) prev older n (e ∷ es) cnt k pos stop o f =
    rw
      (
        allocated e k.0,
        o.0,
        k.1,
        older_walk-Back fuel prev older n es (cnt + 1) k.2 pos stop o.1 (omega arith),
      )
      (ap (λ z. some (n, z)) (omega arith))
  where
    allocated : (z : Ptr) → 0 < z → (z == null) ≡ false
    allocated z pos = ground arith
