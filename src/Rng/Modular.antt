-- ===== src/Rng/Modular.antt =====
-- Residues of sums and products.
use native.Mathlib.Nat.{
  add-mul-mod_self_right, mod-eq_of_lt, mul_comm, mul_assoc, div-add-mod, mod-lt, one-mul, pow-suc,
  pow-zero, add-zero, add-suc, mul-one, mul-zero, mul-suc, mod-mod,
}
use ross.Prelude.{ℕ, ◌+◌, ◌*◌, ◌/◌, ◌%◌, ◌^◌, zero, suc, ◌<◌, ◌≡◌, sym, ap, ◌∙◌, ◌≤◌, arith}

pub mod-mul-mod : (a b m : ℕ) → a % m * b % m ≡ a * b % m
mod-mul-mod a b m =
    sym (add-mul-mod_self_right (a % m * b) (a / m * b) m)
    ∙ ap (λ z. z % m) (regroup (a % m) (a / m) b m a (div-add-mod a m))
  where
    regroup : (r q b m a : ℕ) → m * q + r ≡ a → r * b + q * b * m ≡ a * b
    regroup r q b m a e = grind arith

pub mul-mod-mod : (a b m : ℕ) → a * (b % m) % m ≡ a * b % m
mul-mod-mod a b m =
    ap (λ z. z % m) (mul_comm a (b % m)) ∙ mod-mul-mod b a m ∙ ap (λ z. z % m) (mul_comm b a)

-- Residues multiply.
pub mul-mod_congr : (a b c d m : ℕ) → a % m ≡ b % m → c % m ≡ d % m → a * c % m ≡ b * d % m
mul-mod_congr a b c d m e f =
    sym (mod-mul-mod a c m)
    ∙ ap (λ z. z * c % m) e
    ∙ mod-mul-mod b c m
    ∙ sym (mul-mod-mod b c m)
    ∙ ap (λ z. b * z % m) f
    ∙ mul-mod-mod b d m

-- A number below `m` that differs from `n` by multiples of `m` is the residue of `n`.
pub eq-mod_of_multiples : (p n x y m : ℕ) → p < m → p + x * m ≡ n + y * m → p ≡ n % m
eq-mod_of_multiples p n x y m h e =
    sym (mod-eq_of_lt h)
    ∙ sym (add-mul-mod_self_right p x m)
    ∙ ap (λ z. z % m) e
    ∙ add-mul-mod_self_right n y m

pub pow-add : (a n k : ℕ) → a ^ (n + k) ≡ a ^ n * a ^ k
pow-add a n zero =
    ap (λ z. a ^ z) (add-zero n) ∙ sym (mul-one (a ^ n)) ∙ ap (λ z. a ^ n * z) (sym (pow-zero a))
pow-add a n (suc k) =
    ap (λ z. a ^ z) (add-suc n k)
    ∙ pow-suc a (n + k)
    ∙ ap (λ z. z * a) (pow-add a n k)
    ∙ mul_assoc (a ^ n) (a ^ k) a
    ∙ ap (λ z. a ^ n * z) (sym (pow-suc a k))

-- The residue by twice a number.
pub mod-mul-two : (k p : ℕ) → 0 < p → k % (p * 2) ≡ k % p + p * (k / p % 2)
mod-mul-two k p h =
    let e = k / p % 2 in
    let half = k / p / 2 in
    let whole : p * (k / p) + k % p ≡ k = div-add-mod k p in
    let parts : 2 * half + e ≡ k / p = omega arith in
    let fits : k % p + p * e < p * 2 = omega (arith, mod-lt k h, at_most p e (omega arith)) in
    sym (
      eq-mod_of_multiples (k % p + p * e) k half 0 (p * 2) fits
        (omega (arith, ap (λ (z : ℕ). p * z) parts)))
  where
    at_most : (p e : ℕ) → e ≤ 1 → p * e ≤ p
    at_most p e b = grind arith

-- A multiplier followed by its inverse.
pub inverse_cancels : (a b m s : ℕ) → s < m → b * a % m ≡ 1 → b * (a * s % m) % m ≡ s
inverse_cancels a b m s h e =
    mul-mod-mod b (a * s) m
    ∙ ap (λ z. z % m) (sym (mul_assoc b a s))
    ∙ sym (mod-mul-mod (b * a) s m)
    ∙ ap (λ z. z * s % m) e
    ∙ ap (λ z. z % m) (one-mul s)
    ∙ mod-eq_of_lt h

pub pow-mul : (a n k : ℕ) → a ^ (n * k) ≡ (a ^ n) ^ k
pow-mul a n zero = ap (λ z. a ^ z) (mul-zero n) ∙ pow-zero a ∙ sym (pow-zero (a ^ n))
pow-mul a n (suc k) =
    ap (λ z. a ^ z) (mul-suc n k)
    ∙ pow-add a (n * k) n
    ∙ ap (λ z. z * a ^ n) (pow-mul a n k)
    ∙ sym (pow-suc (a ^ n) k)

-- A power of a residue.
pub mod-pow : (a k m : ℕ) → (a % m) ^ k % m ≡ a ^ k % m
mod-pow a zero m = ap (λ z. z % m) (pow-zero (a % m) ∙ sym (pow-zero a))
mod-pow a (suc k) m =
    ap (λ z. z % m) (pow-suc (a % m) k)
    ∙ mul-mod_congr ((a % m) ^ k) (a ^ k) (a % m) a m (mod-pow a k m) (mod-mod a m)
    ∙ ap (λ z. z % m) (sym (pow-suc a k))

pub pow-one : (a : ℕ) → a ^ 1 ≡ a
pow-one a = pow-suc a 0 ∙ ap (λ z. z * a) (pow-zero a) ∙ one-mul a

pub pow-two : (a : ℕ) → a ^ 2 ≡ a * a
pow-two a = pow-suc a 1 ∙ ap (λ z. z * a) (pow-one a)
