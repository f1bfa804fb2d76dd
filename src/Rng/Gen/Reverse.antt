-- ===== src/Rng/Gen/Reverse.antt =====
-- A draw of `rng_gen_val` and its reversal.
use mathlib.Core.Option
use ross.Prelude.{
  ℕ, zero, suc, ◌+◌, ◌-◌, ◌%◌, ◌^◌, ◌<◌, ◌≡◌, refl, ◌==◌, false, Option, some, arith,
}
use ross.Rng.Component.{
  first, second, third, fourth, advance_fits, advance_pos, retreat-advance, advance-retreat,
}
use ross.Rng.FindB.{IsInverse, find_b-IsInverse}
use ross.Rng.Gen.{Quad, TwRng, TwRngStream, Doubles, rng_gen_val, rng_gen_reverse_val}
use ross.Rng.Gen.Init.{moduli, rng_init}

-- Every component lies between 1 and its modulus less 1, and the draw count fits its type.
pub record IsValid (g : TwRngStream) : Type 0 where
  pub positive : (0 < g.cg.c0) × (0 < g.cg.c1) × (0 < g.cg.c2) × (0 < g.cg.c3)
  pub below :
      (g.cg.c0 < 2147483647)
      × (g.cg.c1 < 2147483543)
      × (g.cg.c2 < 2147483423)
      × (g.cg.c3 < 2147483323)
  pub counted : g.count < 2 ^ 64

-- The generator can run backward.
pub record Reverses (rng : TwRng) : Type 0 where
  pub m : rng.m ≡ moduli
  pub b0 : IsInverse rng.b.c0 45991 2147483647
  pub b1 : IsInverse rng.b.c1 207707 2147483543
  pub b2 : IsInverse rng.b.c2 138556 2147483423
  pub b3 : IsInverse rng.b.c3 49689 2147483323

-- Whatever the seed and the two exponents, `rng_init` builds a generator that can run backward.
pub rng_init-Reverses : (seed : Option (Quad ℕ)) (v w : ℕ) → Reverses (rng_init seed v w)
unfolding rng_init
rng_init-Reverses seed v w =
    let (b0, b1, b2, b3) = find_b-IsInverse in
    record { m = refl; b0 = b0; b1 = b1; b2 = b2; b3 = b3 }

module _ (d : Doubles) where
  -- n draws, and n reversals.
  unfoldable pub draw : ℕ → TwRngStream → TwRngStream
  draw zero g = g
  draw (suc n) g = draw n (rng_gen_val d g).1

  unfoldable pub undo : TwRng → ℕ → TwRngStream → Option TwRngStream
  undo rng zero g = some g
  undo rng (suc n) g =
      Option.bind (undo rng n g) (λ g'. Option.map (λ r. r.1) (rng_gen_reverse_val d rng g'))

module _ (d : Doubles) {rng : TwRng} (ok : Reverses rng) where
  b-ne-zero : (rng.b.c0 == 0) ≡ false
  b-ne-zero = ground (arith, ok.b0)

  -- One reversal undoes one draw, in all four components and the count.
  pub reverse-gen :
      {g : TwRngStream}
      → IsValid g
      → Option.map (λ r. r.1) (rng_gen_reverse_val d rng (rng_gen_val d g).1) ≡ some g
  unfolding rng_gen_val rng_gen_reverse_val
  reverse-gen {g} v =
      let (lt0, lt1, lt2, lt3) = v.below in
      let p0 = retreat-advance rng.b.c0 g.cg.c0 first lt0 ok.b0 in
      let p1 = retreat-advance rng.b.c1 g.cg.c1 second lt1 ok.b1 in
      let p2 = retreat-advance rng.b.c2 g.cg.c2 third lt2 ok.b2 in
      let p3 = retreat-advance rng.b.c3 g.cg.c3 fourth lt3 ok.b3 in
      let count : ((g.count + 1) % 2 ^ 64 + 2 ^ 64 - 1) % 2 ^ 64 ≡ g.count =
        omega (arith, v.counted) in
      rw (b-ne-zero, ok.m)
        (λ i. some (record g {
          count = count i;
          cg = record { c0 = p0 i; c1 = p1 i; c2 = p2 i; c3 = p3 i };
        }))

  -- For a generator that can run backward and a valid stream, one draw undoes one reversal.
  pub gen-reverse :
      {g : TwRngStream}
      → IsValid g
      → Option.map (λ r. (rng_gen_val d r.1).1) (rng_gen_reverse_val d rng g) ≡ some g
  unfolding rng_gen_val rng_gen_reverse_val
  gen-reverse {g} v =
      let (lt0, lt1, lt2, lt3) = v.below in
      let p0 = advance-retreat rng.b.c0 g.cg.c0 first lt0 ok.b0 in
      let p1 = advance-retreat rng.b.c1 g.cg.c1 second lt1 ok.b1 in
      let p2 = advance-retreat rng.b.c2 g.cg.c2 third lt2 ok.b2 in
      let p3 = advance-retreat rng.b.c3 g.cg.c3 fourth lt3 ok.b3 in
      let count : ((g.count + 2 ^ 64 - 1) % 2 ^ 64 + 1) % 2 ^ 64 ≡ g.count =
        omega (arith, v.counted) in
      rw (b-ne-zero, ok.m)
        (λ i. some (record g {
          count = count i;
          cg = record { c0 = p0 i; c1 = p1 i; c2 = p2 i; c3 = p3 i };
        }))

  -- Given a generator that can run backward, a draw leaves a valid stream valid: each component stays
  -- between 1 and its modulus less 1.
  pub rng_gen_val-IsValid : {g : TwRngStream} → IsValid g → IsValid (rng_gen_val d g).1
  unfolding rng_gen_val
  rng_gen_val-IsValid {g} v =
      let (lt0, lt1, lt2, lt3) = v.below in
      let (pos0, pos1, pos2, pos3) = v.positive in
      record {
        positive = (
          advance_pos rng.b.c0 g.cg.c0 first lt0 ok.b0 pos0,
          advance_pos rng.b.c1 g.cg.c1 second lt1 ok.b1 pos1,
          advance_pos rng.b.c2 g.cg.c2 third lt2 ok.b2 pos2,
          advance_pos rng.b.c3 g.cg.c3 fourth lt3 ok.b3 pos3,
        );
        below = (
          (advance_fits g.cg.c0 first lt0).2,
          (advance_fits g.cg.c1 second lt1).2,
          (advance_fits g.cg.c2 third lt2).2,
          (advance_fits g.cg.c3 fourth lt3).2,
        );
        counted = omega arith;
      }

  -- For a generator that can run backward, every valid stream and every n, n reversals after n draws restore the stream, its four
  -- components and its draw count.
  pub undo-draw : (n : ℕ) {g : TwRngStream} → IsValid g → undo d rng n (draw d n g) ≡ some g
  unfolding draw undo Option.bind
  undo-draw zero v = refl
  undo-draw (suc n) v = rw (undo-draw n (rng_gen_val-IsValid v)) (reverse-gen v)
