-- ===== src/Rng/Component.antt =====
-- One component of `rng_gen_val` and of `rng_gen_reverse_val`: forward by Schrage's method in
-- 32-bit arithmetic, backward by the inverse multiplier in 64-bit arithmetic.
use native.Mathlib.Nat.{mod-lt, mul_comm, mul-zero, zero-mod}
use ross.Prelude.{
  ℕ, ◌+◌, ◌-◌, ◌*◌, ◌/◌, ◌%◌, ◌^◌, ◌<◌, ◌≡◌, sym, ap, ℕ_discrete, ◌∙◌, arith, ltb, if◌then◌else◌,
}
use ross.Rng.Modular.{inverse_cancels}

-- `k = s / q; s = a * (s - k * q) - k * r; if (s < 0) s = s + m;`. The difference may be negative,
-- so the minuend and the subtrahend are kept apart.
unfoldable pub advance : ℕ → ℕ → ℕ → ℕ → ℕ → ℕ
advance a q r m s =
    let k = s / q in
    let up = a * (s - k * q) in let down = k * r in if ltb up down then up + m - down else up - down

-- `s = (b * s) % m;`
unfoldable pub retreat : ℕ → ℕ → ℕ → ℕ
retreat b m s = b * s % m

-- The constants of one component: the multiplier, the quotient and remainder of its modulus by it,
-- and the modulus.
pub data Constants : ℕ → ℕ → ℕ → ℕ → Type 0 where
  first : Constants 45991 46693 25884 2147483647
  second : Constants 207707 10339 870 2147483543
  third : Constants 138556 15499 3979 2147483423
  fourth : Constants 49689 43218 24121 2147483323

-- For each of the four components and every state s below its modulus m, the step forward is the
-- residue of a s modulo m.
pub advance-mod : {a q r m : ℕ} (s : ℕ) → Constants a q r m → s < m → advance a q r m s ≡ a * s % m
unfolding advance
advance-mod s first h = ground arith
advance-mod s second h = ground arith
advance-mod s third h = ground arith
advance-mod s fourth h = ground arith

-- For each component and state below the modulus, both products of the step forward fit an
-- `int32_t`, and so does their difference with the modulus added.
pub advance_fits :
    {a q r m : ℕ} (s : ℕ)
    → Constants a q r m
    → s < m
    → (a * (s - s / q * q) < 2 ^ 31) × (s / q * r < 2 ^ 31) × (advance a q r m s < m)
unfolding advance
advance_fits s first h = ground arith
advance_fits s second h = ground arith
advance_fits s third h = ground arith
advance_fits s fourth h = ground arith

module _ {a q r m : ℕ} (b s : ℕ) (c : Constants a q r m) (h : s < m) (inverse : b * a % m ≡ 1) where
  pub retreat-advance : retreat b m (advance a q r m s) ≡ s
  unfolding retreat
  retreat-advance = ap (λ z. b * z % m) (advance-mod s c h) ∙ inverse_cancels a b m s h inverse

  -- A state that is not 0 never becomes 0.
  pub advance_pos : 0 < s → 0 < advance a q r m s
  unfolding retreat
  advance_pos p = elim (ℕ_discrete (advance a q r m s) 0) [
    | yes e ↦ absurd (omega (arith, sym (retreat-zero e) ∙ retreat-advance))
    | no ne ↦ omega arith
  ]
    where
      retreat-zero : advance a q r m s ≡ 0 → retreat b m (advance a q r m s) ≡ 0
      retreat-zero e = ap (λ z. b * z % m) e ∙ ap (λ z. z % m) (mul-zero b) ∙ zero-mod m

module _ {a q r m : ℕ} (b s : ℕ) (c : Constants a q r m) (h : s < m) (inverse : b * a % m ≡ 1) where
  -- Backward, then forward.
  pub advance-retreat : advance a q r m (retreat b m s) ≡ s
  unfolding retreat
  advance-retreat =
      advance-mod (b * s % m) c (mod-lt (b * s) (omega arith))
      ∙ inverse_cancels b a m s h (ap (λ z. z % m) (mul_comm a b) ∙ inverse)
