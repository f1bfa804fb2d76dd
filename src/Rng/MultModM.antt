-- ===== src/Rng/MultModM.antt =====
-- `MultModM` of core/rand-clcg4.c: the product of two residues in 32-bit arithmetic. A value that
-- the code keeps non-negative is a number; `R` is an integer where it may be negative. The integers
-- are not cut to 32 bits: the code assumes arguments between -M and M, and overflows at larger ones.
use native.Mathlib.Nat.{
  suc-mul, div-add-mod, div-add-mod', mod-add-div', mod-lt, le-div_iff_mul-le, mul-div-le,
  mod-eq_of_lt, mod-add-mod, add-mul, mul_assoc,
}
use ross.Prelude.{
  ℕ, zero, suc, ◌+◌, ◌-◌, ◌*◌, ◌/◌, ◌%◌, ◌^◌, ◌≤◌, ◌<◌, ◌≡◌, sym, ap, ◌∙◌, Bool-cases, ==_iff,
  lt_of_ltb, inl, inr, arith, ◌==◌, ltb, if◌then◌else◌,
}
use ross.Prelude.Int.{ℤ, pos, negsuc, pos_part, neg_part, sub_ℕ, ◌+ℤ◌, +ℤ_pos_parts, sub_ℕ_parts}
use ross.Rng.Modular.{eq-mod_of_multiples, mul-mod-mod}

-- `H` of the source.
abbrev pub h : ℕ
h = 32768

-- `while (R < 0) R += M;` on fuel.
pub raise : ℕ → ℤ → ℕ → ℕ
raise zero r m = pos_part r
raise (suc fuel) (pos r) m = r
raise (suc fuel) (negsuc r) m = raise fuel (sub_ℕ m (suc r)) m

-- Every round adds at least 1.
settle : ℤ → ℕ → ℕ
settle r m = raise (suc (neg_part r)) r m

-- `k = R / qh; R = H * (R - k * qh) - k * rh; while (R < 0) R += M;`
times_h : ℕ → ℕ → ℕ
times_h r m =
    let qh = m / h in
    let rh = m - h * qh in let k = r / qh in settle (sub_ℕ (h * (r - k * qh)) (k * rh)) m

-- The block under `if (S1 != 0)`, and the same block under `if (S0 != 0)`.
add_multiple : ℕ → ℕ → ℕ → ℕ → ℕ
add_multiple s r t m =
    let q = m / s in
    let k = t / q in
    let down = k * (m - s * q) in
    let r' = if ltb down r then sub_ℕ r (down + m) else sub_ℕ r down in
    settle (r' +ℤ pos (s * (t - k * q))) m

add_part : ℕ → ℕ → ℕ → ℕ → ℕ
add_part s r t m = if s == 0 then r else add_multiple s r t m

-- The block for `s >= H`, where `s1` is `S1`.
high_part : ℕ → ℕ → ℕ → ℕ
high_part s1 t m =
    let s1' = if ltb s1 h then s1 else s1 - h in
    let r = if ltb s1 h then 0 else times_h t m in times_h (add_part s1' r t m) m

-- `if (s < 0) s += M;`
from_signed : ℤ → ℕ → ℕ
from_signed (pos s) m = s
from_signed (negsuc s) m = m - suc s

residue_product : ℕ → ℕ → ℕ → ℕ
residue_product s t m =
    let s0 = if ltb s h then s else s - h * (s / h) in
    let r = if ltb s h then 0 else high_part (s / h) t m in add_part s0 r t m

pub mult_mod_m : ℤ → ℤ → ℕ → ℕ
mult_mod_m s t m = residue_product (from_signed s m) (from_signed t m) m

raise-mod :
    (fuel : ℕ) (z : ℤ) (m n x y : ℕ)
    → 0 < m
    → neg_part z < fuel
    → pos_part z < m
    → pos_part z + x * m ≡ n + neg_part z + y * m
    → raise fuel z m ≡ n % m
unfolding raise
raise-mod zero z m n x y mp f b e = absurd (omega arith)
raise-mod (suc fuel) (pos r) m n x y mp f b e = eq-mod_of_multiples r n x y m b (omega arith)
raise-mod (suc fuel) (negsuc r) m n x y mp f b e =
    let (up, down) = sub_ℕ_parts m (suc r) in
    raise-mod fuel (sub_ℕ m (suc r)) m n x (suc y) mp (omega arith) (omega arith)
      (omega (arith, suc-mul y m))

settle-mod :
    (z : ℤ) (m n x y : ℕ)
    → 0 < m
    → pos_part z < m
    → pos_part z + x * m ≡ n + neg_part z + y * m
    → settle z m ≡ n % m
unfolding settle
settle-mod z m n x y mp b e = raise-mod (suc (neg_part z)) z m n x y mp (omega arith) b e

-- t = k q + c with c < q: then s t = k m - k (m - s q) + s c
schrage : (s q k c m d : ℕ) → m ≡ s * q + d → s * (k * q + c) + k * d ≡ k * m + s * c
schrage s q k c m d e = omega (arith, ap (λ (z : ℕ). k * z) e)

times_h-mod : (r m : ℕ) → h ≤ m → times_h r m ≡ h * r % m
unfolding times_h
times_h-mod r m b =
    let qh = m / h in
    let k = r / qh in
    let q_pos : 0 < qh = omega arith in
    let e : m ≡ h * qh + (m - h * qh) = omega arith in
    let split : qh * k + r % qh ≡ r = div-add-mod r qh in
    let (up, down) = sub_ℕ_parts (h * (r - k * qh)) (k * (m - h * qh)) in
    let small : h * (r % qh) < m = omega (arith, mod-lt r q_pos) in
    let c : r - k * qh ≡ r % qh = omega arith in
    settle-mod (sub_ℕ (h * (r - k * qh)) (k * (m - h * qh))) m (h * r) k 0 (omega arith)
      (omega arith) (omega (arith, schrage h qh k (r % qh) m (m - h * qh) e))

-- One block, with its quotients and remainders named.
settle-block :
    (s r t m q k c d : ℕ)
    → m ≡ s * q + d
    → k * q + c ≡ t
    → s * c < m
    → r < m
    → settle ((if ltb (k * d) r then sub_ℕ r (k * d + m) else sub_ℕ r (k * d)) +ℤ pos (s * c)) m
      ≡ (r + s * t) % m
settle-block s r t m q k c d e split small rm =
    let eq = schrage s q k c m d e in
    let eq' = ap (λ (z : ℕ). s * z) split in
    elim (Bool-cases (ltb (k * d) r)) [
      | inl above ↦ rw above (
          let r' = sub_ℕ r (k * d + m) in
          let parts = sub_ℕ_parts r (k * d + m) in
          let sum = +ℤ_pos_parts r' (s * c) in
          settle-mod (r' +ℤ pos (s * c)) m (r + s * t) (suc k) 0 (omega arith)
            (omega (arith, parts, sum))
            (omega (arith, parts, sum, lt_of_ltb (k * d) r above, suc-mul k m)))
      | inr below ↦ rw below (
          let r' = sub_ℕ r (k * d) in
          let parts = sub_ℕ_parts r (k * d) in
          let sum = +ℤ_pos_parts r' (s * c) in
          let low : r ≤ k * d = ground arith in
          settle-mod (r' +ℤ pos (s * c)) m (r + s * t) k 0 (omega arith) (omega (arith, parts, sum))
            (omega (arith, parts, sum)))
    ]

times-lt : (s c q m : ℕ) → 0 < s → c < q → s * q ≤ m → s * c < m
times-lt s c q m sp cq b = grind arith

add_multiple-mod : (s r t m : ℕ) → 0 < s → s ≤ m → r < m → add_multiple s r t m ≡ (r + s * t) % m
unfolding add_multiple
add_multiple-mod s r t m sp sm rm =
    let q = m / s in
    let k = t / q in
    let q_pos : 0 < q = (le-div_iff_mul-le sp).1 (omega arith) in
    let low : s * q ≤ m = mul-div-le m s in
    let c : t - k * q ≡ t % q = omega (arith, mod-add-div' t q) in
    rw c (
      settle-block s r t m q k (t % q) (m - s * q) (omega arith) (div-add-mod' t q)
        (times-lt s (t % q) q m sp (mod-lt t q_pos) low) rm)

add_part-mod : (s r t m : ℕ) → s ≤ m → r < m → add_part s r t m ≡ (r + s * t) % m
unfolding add_part
add_part-mod s r t m sm rm = elim (Bool-cases (s == 0)) [
  | inl none_left ↦ rw none_left (
      sym (mod-eq_of_lt rm)
      ∙ ap (λ z. z % m) (omega (arith, ap (λ (z : ℕ). z * t) ((==_iff s 0).0 none_left))))
  | inr some_left ↦ rw some_left (add_multiple-mod s r t m (ground arith) sm rm)
]

-- After the block the code multiplies `R` by `H`.
times_h-add_part :
    (s r t m : ℕ) → h ≤ m → s ≤ m → r < m → times_h (add_part s r t m) m ≡ h * (r + s * t) % m
times_h-add_part s r t m b sm rm =
    times_h-mod (add_part s r t m) m b
    ∙ ap (λ z. h * z % m) (add_part-mod s r t m sm rm)
    ∙ mul-mod-mod h (r + s * t) m

high_part-mod : (s1 t m : ℕ) → 2 * h ≤ m → s1 < 2 * h → high_part s1 t m ≡ h * (s1 * t) % m
unfolding high_part
high_part-mod s1 t m b lt = elim (Bool-cases (ltb s1 h)) [
  | inl small ↦ rw small (
      times_h-add_part s1 0 t m (omega arith) (omega arith) (omega arith)
      ∙ ap (λ z. h * z % m) (omega arith))
  | inr large ↦
      let first = times_h-mod t m (omega arith) in
      let fits : times_h t m < m = omega (arith, first) in
      rw large (
        times_h-add_part (s1 - h) (times_h t m) t m (omega arith) (omega arith) fits
        ∙ ap (λ z. h * (z + (s1 - h) * t) % m) first
        ∙ regroup (ground arith))
]
  where
    regroup : h ≤ s1 → h * (h * t % m + (s1 - h) * t) % m ≡ h * (s1 * t) % m
    regroup le =
        sym (mul-mod-mod h (h * t % m + (s1 - h) * t) m)
        ∙ ap (λ z. h * z % m) (mod-add-mod (h * t) m ((s1 - h) * t))
        ∙ mul-mod-mod h (h * t + (s1 - h) * t) m
        ∙ ap (λ z. h * z % m) (sym (add-mul h (s1 - h) t) ∙ ap (λ z. z * t) (omega arith))

residue_product-mod :
    (s t m : ℕ) → 2 * h ≤ m → m ≤ 2 * h * h → s < m → residue_product s t m ≡ s * t % m
unfolding residue_product
residue_product-mod s t m b c lt = elim (Bool-cases (ltb s h)) [
  | inl small ↦
      rw small (add_part-mod s 0 t m (omega arith) (omega arith) ∙ ap (λ z. z % m) (omega arith))
  | inr large ↦
      let q = s / h in
      let first = high_part-mod q t m b (omega arith) in
      rw large (
        add_part-mod (s - h * q) (high_part q t m) t m (omega arith) (omega (arith, first))
        ∙ ap (λ z. (z + (s - h * q) * t) % m) first
        ∙ mod-add-mod (h * (q * t)) m ((s - h * q) * t)
        ∙ ap (λ z. z % m)
            (ap (λ z. z + (s - h * q) * t) (sym (mul_assoc h q t))
              ∙ sym (add-mul (h * q) (s - h * q) t)
              ∙ ap (λ z. z * t) (omega arith)))
]

-- The same for the definition, whose integers are unbounded.
pub mult_mod_m_lem :
    (s t m : ℕ) → 2 ^ 16 ≤ m → m ≤ 2 ^ 31 → s < m → mult_mod_m (pos s) (pos t) m ≡ s * t % m
unfolding mult_mod_m from_signed
mult_mod_m_lem s t m b c lt = residue_product-mod s t m b c lt

-- For a modulus M from 2 ^ 16 on and below 2 ^ 31, and non-negative s and t below M, as the comment
-- of `MultModM` assumes, `MultModM` returns the residue of the product s t.
pub mult_mod_m-mod :
    (s t m : ℕ) → 2 ^ 16 ≤ m → m < 2 ^ 31 → s < m → t < m → mult_mod_m (pos s) (pos t) m ≡ s * t % m
mult_mod_m-mod s t m b c ls lt = mult_mod_m_lem s t m b (omega arith) ls
