-- ===== src/Kernel/Draws.antt =====
-- Repeated draws of a generator, and writes to one cell.
use ross.Prelude.{
  ℕ, zero, suc, ◌≡◌, refl, ap, inl, inr, true, false, Bool-cases, Option, none, some, ◌==◌, fun_ext,
  ℕ_discrete, arith,
}
use ross.Kernel.Machine.{Machine}
use ross.Kernel.State.{Lp, write}
use ross.Kernel.Sent.{Ensures}

pub Ensures-imp :
    {A : Type 0} (P Q : A → Type 0) (r : Option A)
    → ((a : A) → P a → Q a)
    → Ensures P r
    → Ensures Q r
Ensures-imp P Q none f h = tt
Ensures-imp P Q (some a) f h = f a h

-- `n` draws of the generator.
abbrev pub draws : (m : Machine) → ℕ → m.Rng → m.Rng
draws m zero g = g
draws m (suc n) g = (m.rand_unif (draws m n g)).1

pub draws_shift : (m : Machine) (n : ℕ) (g : m.Rng) → draws m n (draws m 1 g) ≡ draws m (suc n) g
draws_shift m zero g = refl
draws_shift m (suc n) g = ap (λ z. (m.rand_unif z).1) (draws_shift m n g)

-- The process after `n` draws.
abbrev pub drawn : (m : Machine) → ℕ → Lp m → Lp m
drawn m n lp = record lp { core_rng = draws m n lp.core_rng }

pub write_self : {A : Type 0} (f : ℕ → A) (i : ℕ) (a : A) → write f i a i ≡ a
write_self f i a = let hit : (i == i) ≡ true = ground arith in rw hit refl

pub write_same : {A : Type 0} (f : ℕ → A) (i : ℕ) → write f i (f i) ≡ f
write_same f i = fun_ext (λ j. elim (ℕ_discrete j i) [
  | yes q ↦ rw q (write_self f i (f i))
  | no q ↦ let miss : (j == i) ≡ false = ground arith in rw miss refl
])

pub write-write : {A : Type 0} (f : ℕ → A) (i : ℕ) (a b : A) → write (write f i a) i b ≡ write f i b
write-write f i a b =
    fun_ext (λ j. elim (Bool-cases (j == i)) [ inl h ↦ rw h refl | inr h ↦ rw h refl ])
