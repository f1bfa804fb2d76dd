-- ===== src/Rng/Gen/Streams.antt =====
-- `tw_rand_init_streams` of core/rand-clcg4.c: the streams of a logical process, and what tells them
-- from those of the others.
use native.Mathlib.Nat.{mul-le-mul_right, add-mul, one-mul, mul_comm}
use ross.Prelude.{
  Bool-cases, inl, inr, lt_of_ltb, le_of_not_ltb, ℕ, zero, suc, ◌+◌, ◌*◌, ◌%◌, ◌^◌, ◌≤◌, ◌<◌, ◌≡◌,
  refl, sym, ap, false, Option, none, some, List, [], ◌∷◌, All, length, ltb, if◌then◌else◌, arith,
  ◌||◌,
}
use ross.Rng.Gen.{TwRng, TwRngStream}
use ross.Rng.Gen.Init.{quad, clamp_seed, initial_ig, rng_init_generator, tw_rand_initial_seed}
use ross.Rng.Gen.Reverse.{IsValid}

-- The identifier of stream `i` of the process `gid`, in 64 bits.
unfoldable pub lp_stream_id : ℕ → ℕ → ℕ → ℕ
lp_stream_id g_tw_nRNG_per_lp gid i = (gid * g_tw_nRNG_per_lp + i) % 2 ^ 64

-- `total_num_noncore_rngs` is an `unsigned int`.
unfoldable pub core_stream_id : ℕ → ℕ → ℕ → ℕ → ℕ → ℕ
core_stream_id g_tw_nRNG_per_lp g_tw_nRNG_core_per_lp g_tw_total_lps gid j =
    (g_tw_nRNG_per_lp * g_tw_total_lps % 2 ^ 32 + gid * g_tw_nRNG_core_per_lp + j) % 2 ^ 64

-- A stream as `tw_calloc` leaves it.
abbrev pub zero_stream : TwRngStream
zero_stream = record { count = 0; ig = quad 0 0 0 0; lg = quad 0 0 0 0; cg = quad 0 0 0 0 }

-- A loop of `tw_rand_init_streams`, for `n` streams from the one with index `i` on.
unfoldable pub init_loop : ℕ → ℕ → (ℕ → ℕ) → TwRng → List TwRngStream
init_loop zero i id rng = []
init_loop (suc n) i id rng =
    tw_rand_initial_seed zero_stream (id i) rng ∷ init_loop n (suc i) id rng

-- `none` is a call of `tw_error`. The two lists are `lp->rng` and `lp->core_rng`.
unfoldable pub tw_rand_init_streams :
    TwRng → TwRng → ℕ → ℕ → ℕ → ℕ → ℕ → ℕ → Option (List TwRngStream × List TwRngStream)
tw_rand_init_streams rng core_rng per core total gid nstreams n_core_streams =
    if ltb per nstreams || ltb core n_core_streams
    then none
    else some (
      init_loop nstreams 0 (lp_stream_id per gid) rng,
      init_loop n_core_streams 0 (core_stream_id per core total gid) core_rng,
    )

-- A place in a row of blocks of one length tells the block and the place in it.
place_unique : (n a b i j : ℕ) → i < n → j < n → a * n + i ≡ b * n + j → a ≤ b → (a ≡ b) × (i ≡ j)
place_unique n a b i j li lj e le = elim (Bool-cases (ltb a b)) [
  | inl less ↦
      let step = mul-le-mul_right n (lt_of_ltb a b less) in
      absurd (omega (arith, step, add-mul a 1 n, one-mul n))
  | inr not_less ↦
      let same : a ≡ b = omega (arith, le_of_not_ltb a b not_less) in
      (same, omega (arith, ap (λ (z : ℕ). z * n) same))
]

-- A place in one of the first blocks lies before the end of the last one.
place-below : (n total a i : ℕ) → a < total → i < n → a * n + i < total * n
place-below n total a i la li = omega (arith, mul-le-mul_right n la, add-mul a 1 n, one-mul n)

-- With fewer than 2 ^ 64 streams, two streams of logical processes have one identifier only if they
-- are the same stream of the same process.
pub lp_stream_id_injective :
    (per total gid gid' i i' : ℕ)
    → total * per < 2 ^ 64
    → gid < total
    → gid' < total
    → i < per
    → i' < per
    → lp_stream_id per gid i ≡ lp_stream_id per gid' i'
    → (gid ≡ gid') × (i ≡ i')
unfolding lp_stream_id
lp_stream_id_injective per total gid gid' i i' fits lg lg' li li' e =
    let low = place-below per total gid i lg li in
    let low' = place-below per total gid' i' lg' li' in
    let same : gid * per + i ≡ gid' * per + i' = omega (arith, e, low, low') in
    elim (Bool-cases (ltb gid' gid)) [
      | inl after ↦
          let (p, q) =
            place_unique per gid' gid i' i li' li (sym same)
              (omega (arith, lt_of_ltb gid' gid after)) in
          (sym p, sym q)
      | inr not_after ↦
          place_unique per gid gid' i i' li li' same (le_of_not_ltb gid' gid not_after)
    ]

-- While the streams of the logical processes are fewer than 2 ^ 32, and all streams fewer than 2 ^ 64,
-- the identifier of every core stream lies behind that of every stream of a logical process.
pub core_stream_id_apart :
    (per core total gid gid' i j : ℕ)
    → total * per < 2 ^ 32
    → total * per + total * core < 2 ^ 64
    → gid < total
    → gid' < total
    → i < per
    → j < core
    → lp_stream_id per gid i < core_stream_id per core total gid' j
unfolding lp_stream_id core_stream_id
core_stream_id_apart per core total gid gid' i j fits fits_all lg lg' li lj = omega (
  arith,
  place-below per total gid i lg li,
  place-below core total gid' j lg' lj,
  mul_comm per total,
)

clamped :
    (max s : ℕ)
    → 0 < max
    → (let s' = if ltb s 1 then 1 else s in
        (0 < (if ltb max s' then max else s')) × ((if ltb max s' then max else s') ≤ max))
clamped max s pos = ground arith

-- Every stream that `tw_rand_initial_seed` seeds is valid, whatever the identifier and the generator.
pub tw_rand_initial_seed-IsValid :
    (g : TwRngStream) (id : ℕ) (rng : TwRng) → IsValid (tw_rand_initial_seed g id rng)
unfolding tw_rand_initial_seed rng_init_generator clamp_seed
tw_rand_initial_seed-IsValid g id rng =
    let start =
      λ (avw m seed max : ℕ) (pos : 0 < max). clamped max (initial_ig id avw m seed) pos in
    let c0 = start rng.avw.c0 rng.m.c0 rng.seed.c0 2147483646 (omega arith) in
    let c1 = start rng.avw.c1 rng.m.c1 rng.seed.c1 2147483542 (omega arith) in
    let c2 = start rng.avw.c2 rng.m.c2 rng.seed.c2 2147483422 (omega arith) in
    let c3 = start rng.avw.c3 rng.m.c3 rng.seed.c3 2147483322 (omega arith) in
    record {
      positive = (c0.0, c1.0, c2.0, c3.0);
      below = (omega (arith, c0.1), omega (arith, c1.1), omega (arith, c2.1), omega (arith, c3.1));
      counted = omega arith;
    }

init_loop-All :
    (n i : ℕ) (id : ℕ → ℕ) (rng : TwRng)
    → All IsValid (init_loop n i id rng) × (length (init_loop n i id rng) ≡ n)
unfolding init_loop
init_loop-All zero i id rng = (tt, refl)
init_loop-All (suc n) i id rng =
    let (valid, count) = init_loop-All n (suc i) id rng in
    ((tw_rand_initial_seed-IsValid zero_stream (id i) rng, valid), ap suc count)

-- The streams of a logical process, as many as it asked for, and all of them valid.
pub record Seeded (nstreams n_core_streams : ℕ) (out : Option (List TwRngStream × List TwRngStream))
    : Type 0 where
  pub streams : List TwRngStream
  pub core_streams : List TwRngStream
  pub returns : out ≡ some (streams, core_streams)
  pub valid : All IsValid streams × All IsValid core_streams
  pub counts : (length streams ≡ nstreams) × (length core_streams ≡ n_core_streams)

-- A process that asks for no more streams than the global limits gets as many as it asked for, and
-- each of them valid: its components lie between 1 and their moduli less 1.
pub tw_rand_init_streams-Seeded :
    (rng core_rng : TwRng) (per core total gid nstreams n_core_streams : ℕ)
    → nstreams ≤ per
    → n_core_streams ≤ core
    → Seeded nstreams n_core_streams
        (tw_rand_init_streams rng core_rng per core total gid nstreams n_core_streams)
unfolding tw_rand_init_streams
tw_rand_init_streams-Seeded rng core_rng per core total gid nstreams n_core_streams few few_core =
    let (valid, count) = init_loop-All nstreams 0 (lp_stream_id per gid) rng in
    let (valid', count') =
      init_loop-All n_core_streams 0 (core_stream_id per core total gid) core_rng in
    let asked : (ltb per nstreams || ltb core n_core_streams) ≡ false = ground arith in
    record {
      streams = init_loop nstreams 0 (lp_stream_id per gid) rng;
      core_streams = init_loop n_core_streams 0 (core_stream_id per core total gid) core_rng;
      returns = rw asked refl;
      valid = (valid, valid');
      counts = (count, count');
    }
