-- ===== src/Rng/FindB.antt =====
-- `FindB` of core/rand-clcg4.c, which raises the multiplier to the power m - 2.
use native.Mathlib.Nat.{
  mul_assoc, mod-mod, mul-one, pow-succ', pow-zero, mod-eq_of_lt, mod-one, mod-lt,
}
use ross.Prelude.{
  ℕ, zero, suc, ◌*◌, ◌/◌, ◌%◌, ◌^◌, ◌<◌, ◌≤◌, ◌≡◌, refl, sym, ap, ◌∙◌, List, [], ◌∷◌, inl, inr,
  Bool-cases, All, ==_iff, arith, ◌==◌, if◌then◌else◌,
}
use ross.Rng.Modular.{mul-mod_congr, pow-add, mod-mul-two}

-- A `long long` holds the product of two numbers below 2 ^ 31; the integers are not cut to 64 bits.
-- The first loop: `n` squares, each the square of the one before it modulo `m`.
pub squares : ℕ → ℕ → ℕ → List ℕ
squares zero s m = []
squares (suc n) s m = s ∷ squares n (s * s % m) m

-- The second loop. `power_of_2` has one bit set, so `power_of_2 & k` tests that bit of `k`.
multiply : List ℕ → ℕ → ℕ → ℕ → ℕ → ℕ
multiply [] power_of_2 k m b = b
multiply (s ∷ sqrs) power_of_2 k m b =
    let factor = if k / power_of_2 % 2 == 0 then 1 else s in
    multiply sqrs (power_of_2 * 2) k m (b * factor % m)

pub find_b : ℕ → ℕ → ℕ → ℕ
find_b a k m = multiply (squares 32 a m) 1 k m 1

-- One round of the second loop takes one more bit of `k`.
round-pow :
    (a k m s p b : ℕ)
    → 0 < p
    → s % m ≡ a ^ p % m
    → b ≡ a ^ (k % p) % m
    → b * (if k / p % 2 == 0 then 1 else s) % m ≡ a ^ (k % (p * 2)) % m
round-pow a k m s p b h e f =
    let b_mod : b % m ≡ a ^ (k % p) % m = ap (λ z. z % m) f ∙ mod-mod (a ^ (k % p)) m in
    elim (Bool-cases (k / p % 2 == 0)) [
      | inl clear ↦
          let bit = (==_iff (k / p % 2) 0).0 clear in
          rw clear (
            ap (λ z. z % m) (mul-one b)
            ∙ b_mod
            ∙ ap (λ z. a ^ z % m) (omega (arith, mod-mul-two k p h, ap (λ (z : ℕ). p * z) bit)))
      | inr is_set ↦
          let bit : k / p % 2 ≡ 1 = ground arith in
          rw is_set (
            mul-mod_congr b _ s _ m b_mod e
            ∙ ap (λ z. z % m) (sym (pow-add a (k % p) p))
            ∙ ap (λ z. a ^ z % m) (omega (arith, mod-mul-two k p h, ap (λ (z : ℕ). p * z) bit)))
    ]

-- After the bits of `k` below `p` the product is a ^ (k % p), and the next square is a ^ p.
multiply-pow :
    (a k m n s p b : ℕ)
    → 0 < p
    → s % m ≡ a ^ p % m
    → b ≡ a ^ (k % p) % m
    → multiply (squares n s m) p k m b ≡ a ^ (k % (p * 2 ^ n)) % m
unfolding multiply squares
multiply-pow a k m zero s p b h e f =
    f ∙ ap (λ z. a ^ (k % z) % m) (sym (mul-one p) ∙ ap (λ z. p * z) (sym (pow-zero 2)))
multiply-pow a k m (suc n) s p b h e f =
    multiply-pow a k m n (s * s % m) (p * 2) _ (omega arith) square (round-pow a k m s p b h e f)
    ∙ ap (λ z. a ^ (k % z) % m) (mul_assoc p 2 (2 ^ n) ∙ ap (λ z. p * z) (sym (pow-succ' 2 n)))
  where
    square : s * s % m % m ≡ a ^ (p * 2) % m
    square =
        mod-mod (s * s) m
        ∙ mul-mod_congr s _ s _ m e e
        ∙ ap (λ z. z % m) (sym (pow-add a p p) ∙ ap (λ z. a ^ z) (omega arith))

squares-bound :
    (n s m : ℕ) → 0 < m → m ≤ 2 ^ 31 → s < 2 ^ 31 → All (λ z. z < 2 ^ 31) (squares n s m)
unfolding squares
squares-bound zero s m pos h l = tt
squares-bound (suc n) s m pos h l =
    let next : s * s % m < m = mod-lt (s * s) pos in
    (l, squares-bound n (s * s % m) m pos h (omega arith))

power-of_bits : (a k m : ℕ) → k < 2 ^ 32 → 1 < m → find_b a k m ≡ a ^ k % m
unfolding find_b
power-of_bits a k m h lt =
    multiply-pow a k m 32 a 1 1 (omega arith) (ap (λ z. z % m) (sym one_power)) (sym zero_power)
    ∙ ap (λ z. a ^ z % m) (omega arith)
  where
    one_power : a ^ 1 ≡ a
    one_power = pow-succ' a 0 ∙ ap (λ z. a * z) (pow-zero a) ∙ mul-one a

    zero_power : a ^ (k % 1) % m ≡ 1
    zero_power = ap (λ z. a ^ z % m) (mod-one k) ∙ ap (λ z. z % m) (pow-zero a) ∙ mod-eq_of_lt lt

-- For every exponent k below 2 ^ 32, every modulus m from 2 to 2 ^ 31 and every base a below 2 ^ 31,
-- `FindB(a, k, m)` is the residue of a ^ k modulo m; the squares that it stores are below 2 ^ 31, so
-- that their products fit a `long long`.
pub find_b-pow :
    (a k m : ℕ)
    → k < 2 ^ 32
    → 1 < m
    → m ≤ 2 ^ 31
    → a < 2 ^ 31
    → (find_b a k m ≡ a ^ k % m) × All (λ s. s < 2 ^ 31) (squares 32 a m)
find_b-pow a k m h lt le base =
    (power-of_bits a k m h lt, squares-bound 32 a m (omega arith) le base)

abbrev pub IsInverse : ℕ → ℕ → ℕ → Type 0
IsInverse b a m = b * a % m ≡ 1

-- What `rng_init` stores in `b[0..3]` are inverses of the four multipliers modulo the moduli.
pub find_b-IsInverse :
    IsInverse (find_b 45991 2147483645 2147483647) 45991 2147483647
    × IsInverse (find_b 207707 2147483541 2147483543) 207707 2147483543
    × IsInverse (find_b 138556 2147483421 2147483423) 138556 2147483423
    × IsInverse (find_b 49689 2147483321 2147483323) 49689 2147483323
unfolding find_b squares multiply
find_b-IsInverse = (refl, refl, refl, refl)
