-- ===== src/Rng/Gen/Seed.antt =====
-- Where the streams start: `clamp_seed`, repeated squaring and `tw_rand_initial_seed`.
use native.Mathlib.Nat.{
  mul_assoc, one-mul, pow-zero, pow-succ', mod-eq_of_lt, div-div-eq-div-mul, mod-one, one-le-pow,
  pow-suc,
}
use ross.Prelude.{
  ℕ, zero, suc, ◌+◌, ◌-◌, ◌*◌, ◌/◌, ◌%◌, ◌^◌, ◌≤◌, ◌<◌, ◌≡◌, sym, ap, ◌∙◌, inl, inr, arith, ◌==◌,
  Bool-cases, ==_iff,
}
use ross.Prelude.Int.{pos}
use ross.Rng.Modular.{
  mod-mul-mod, mul-mod-mod, pow-add, pow-mul, pow-one, pow-two, mod-pow, mod-mul-two,
}
use ross.Rng.MultModM.{mult_mod_m, mult_mod_m_lem}
use ross.Rng.Gen.Init.{square_times, jump, seed_loop, initial_ig}

-- The moduli for which `MultModM` is exact.
pub record IsModulus (m : ℕ) : Type 0 where
  pub low : 2 ^ 16 ≤ m
  pub high : m ≤ 2 ^ 31

-- Twice the bits `n + 1` to 1 of a number, by its bit `n + 1` and the bits below.
next_bit :
    (n id bit : ℕ)
    → id / 2 ^ suc n % 2 ≡ bit
    → 2 * (id / 2 % 2 ^ suc n) ≡ 2 * (id / 2 % 2 ^ n) + 2 ^ suc n * bit
next_bit n id bit e =
    let half = id / 2 in
    let shift : half / 2 ^ n ≡ id / 2 ^ suc n =
      div-div-eq-div-mul id 2 (2 ^ n) ∙ ap (λ z. id / z) (sym (pow-succ' 2 n)) in
    let split = mod-mul-two half (2 ^ n) (one-le-pow n 2 (omega arith)) in
    ap (λ z. 2 * (half % z)) (pow-suc 2 n)
    ∙ ap (λ z. 2 * z) split
    ∙ ap (λ z. 2 * (half % 2 ^ n + 2 ^ n * (z % 2))) shift
    ∙ ap (λ z. 2 * (half % 2 ^ n + 2 ^ n * z)) e
    ∙ omega (arith, ap (λ (z : ℕ). bit * z) (pow-succ' 2 n))

module _ {m : ℕ} (ok : IsModulus m) where
  product-mod : (s t : ℕ) → s < m → mult_mod_m (pos s) (pos t) m ≡ s * t % m
  product-mod s t h = mult_mod_m_lem s t m ok.low ok.high h

  -- `n` squarings raise to the power 2 ^ n.
  square_times-pow : (n x : ℕ) → x < m → square_times n x m ≡ x ^ (2 ^ n) % m
  unfolding square_times
  square_times-pow zero x h = sym (mod-eq_of_lt h) ∙ ap (λ z. z % m) (sym (pow-one x))
  square_times-pow (suc n) x h =
      let first = product-mod x x h in
      let small : mult_mod_m (pos x) (pos x) m < m = omega (arith, first, ok.low) in
      square_times-pow n (mult_mod_m (pos x) (pos x) m) small
      ∙ ap (λ z. z ^ 2 ^ n % m) first
      ∙ mod-pow (x * x) (2 ^ n) m
      ∙ ap (λ z. z ^ 2 ^ n % m) (sym (pow-two x))
      ∙ ap (λ z. z % m) (sym (pow-mul x 2 (2 ^ n)) ∙ ap (λ z. x ^ z) (sym (pow-succ' 2 n)))

  jump-mod : (n avw ig : ℕ) → avw < m → jump n avw ig m ≡ avw ^ (2 ^ n) * ig % m
  unfolding jump
  jump-mod n avw ig h =
      let base = square_times-pow n avw h in
      product-mod (square_times n avw m) ig (omega (arith, base, ok.low))
      ∙ ap (λ z. z * ig % m) base
      ∙ mod-mul-mod (avw ^ (2 ^ n)) ig m

  -- The loop over the bits `n` to 1 of the identifier.
  seed_loop-pow :
      (n id avw ig : ℕ)
      → avw < m
      → ig < m
      → seed_loop n id avw m ig ≡ avw ^ (2 * (id / 2 % 2 ^ n)) * ig % m
  unfolding seed_loop
  seed_loop-pow zero id avw ig h k = sym (
      ap (λ z. avw ^ (2 * z) * ig % m) (ap (λ z. id / 2 % z) (pow-zero 2) ∙ mod-one (id / 2))
      ∙ ap (λ z. z * ig % m) (pow-zero avw)
      ∙ ap (λ z. z % m) (one-mul ig)
      ∙ mod-eq_of_lt k)
  seed_loop-pow (suc n) id avw ig h k = elim (Bool-cases (id / 2 ^ suc n % 2 == 0)) [
    | inl clear ↦
        let bit = (==_iff (id / 2 ^ suc n % 2) 0).0 clear in
        rw clear (
          seed_loop-pow n id avw ig h k
          ∙ ap (λ z. avw ^ z * ig % m) (omega (arith, next_bit n id 0 bit)))
    | inr is_set ↦
        let bit : id / 2 ^ suc n % 2 ≡ 1 = ground arith in
        let low = 2 * (id / 2 % 2 ^ n) in
        let jumped = jump-mod (suc n) avw ig h in
        rw is_set (
          seed_loop-pow n id avw (jump (suc n) avw ig m) h (omega (arith, jumped, ok.low))
          ∙ ap (λ z. avw ^ low * z % m) jumped
          ∙ mul-mod-mod (avw ^ low) (avw ^ (2 ^ suc n) * ig) m
          ∙ ap (λ z. z % m) (sym (mul_assoc (avw ^ low) (avw ^ (2 ^ suc n)) ig))
          ∙ ap (λ z. z * ig % m) (sym (pow-add avw low (2 ^ suc n)))
          ∙ ap (λ z. avw ^ z * ig % m) (omega (arith, next_bit n id 1 bit)))
  ]

  -- For a modulus from 2 ^ 16 to 2 ^ 31, and a multiplier avw and a seed below it, one component of
  -- a stream's initial seed, before it is clamped, is avw ^ id * seed modulo m, for every 64-bit
  -- identifier.
  pub initial_ig-pow :
      (id avw seed : ℕ)
      → id < 2 ^ 64
      → avw < m
      → seed < m
      → initial_ig id avw m seed ≡ avw ^ id * seed % m
  unfolding initial_ig
  initial_ig-pow id avw seed fits h k =
      let loop = seed_loop-pow 63 id avw seed h k in
      let high : 2 * (id / 2 % 2 ^ 63) ≡ id - id % 2 = omega arith in
      elim (Bool-cases (id % 2 == 0)) [
        | inl even ↦
            rw even
              (loop ∙ ap (λ z. avw ^ z * seed % m) (omega (arith, (==_iff (id % 2) 0).0 even)))
        | inr odd ↦
            let bit : id % 2 ≡ 1 = ground arith in
            let low = 2 * (id / 2 % 2 ^ 63) in
            rw odd (
              product-mod avw (seed_loop 63 id avw m seed) h
              ∙ ap (λ z. avw * z % m) loop
              ∙ mul-mod-mod avw (avw ^ low * seed) m
              ∙ ap (λ z. z % m) (sym (mul_assoc avw (avw ^ low) seed))
              ∙ ap (λ z. z * seed % m) (sym (pow-succ' avw low))
              ∙ ap (λ z. avw ^ z * seed % m) (omega arith))
      ]
