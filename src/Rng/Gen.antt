-- ===== src/Rng/Gen.antt =====
-- `rng_gen_val` and `rng_gen_reverse_val` of core/rand-clcg4.c, and the structures of
-- core/rand-clcg4.h. A component of a stream is a number, since the code keeps it non-negative. The floating-point operations are a parameter.
pub mod Reverse
pub mod Init
pub mod Seed
pub mod Streams
use ross.Prelude.{ℕ, ◌+◌, ◌-◌, ◌%◌, ◌^◌, Bool, Option, none, some, ◌==◌, if◌then◌else◌}
use ross.Rng.Component.{advance, retreat}

-- An array of four.
pub record Quad (A : Type 0) : Type 0 where
  pub c0 : A
  pub c1 : A
  pub c2 : A
  pub c3 : A

-- `struct tw_rng`
pub record TwRng : Type 0 where
  pub b : Quad ℕ
  pub m : Quad ℕ
  pub a : Quad ℕ
  pub aw : Quad ℕ
  pub avw : Quad ℕ
  pub seed : Quad ℕ

-- `struct tw_rng_stream` without the state of `tw_rand_normal_sd`
pub record TwRngStream : Type 0 where
  pub count : ℕ
  pub ig : Quad ℕ
  pub lg : Quad ℕ
  pub cg : Quad ℕ

-- The C type `double`: conversion of an `int32_t`, a literal by its digits and its negative power
-- of ten, and the operations that the generator uses.
pub record Doubles : Type 1 where
  pub Double : Type 0
  pub of_int : ℕ → Double
  pub literal : ℕ → ℕ → Double
  pub plus : Double → Double → Double
  pub minus : Double → Double → Double
  pub times : Double → Double → Double
  pub less : Double → Double → Bool
  pub at_least : Double → Double → Bool

module _ (d : Doubles) where
  open d use {Double, of_int, literal, plus, minus, times, less, at_least}

  -- `u = u + c * s; if (u >= 1.0) u = u - 1.0;`
  pub wrap_down : Double → Double
  wrap_down u = if at_least u (literal 1 0) then minus u (literal 1 0) else u

  -- `u = u - c * s; if (u < 0) u = u + 1.0;`
  pub wrap_up : Double → Double
  wrap_up u = if less u (literal 0 0) then plus u (literal 1 0) else u

  -- The uniform value of the four components.
  pub combine : Quad ℕ → Double
  unfolding wrap_down wrap_up
  combine s =
      let u0 = plus (literal 0 0) (times (literal 465661287524579692 27) (of_int s.c0)) in
      let u1 = wrap_up (minus u0 (times (literal 465661310075985993 27) (of_int s.c1))) in
      let u2 = wrap_down (plus u1 (times (literal 465661336096842131 27) (of_int s.c2))) in
      wrap_up (minus u2 (times (literal 465661357780891134 27) (of_int s.c3)))

  -- `count` is an `unsigned long`.
  unfoldable pub rng_gen_val : TwRngStream → Double × TwRngStream
  rng_gen_val g =
      let cg : Quad ℕ = record {
        c0 = advance 45991 46693 25884 2147483647 g.cg.c0;
        c1 = advance 207707 10339 870 2147483543 g.cg.c1;
        c2 = advance 138556 15499 3979 2147483423 g.cg.c2;
        c3 = advance 49689 43218 24121 2147483323 g.cg.c3;
      } in
      (combine cg, record g { count = (g.count + 1) % 2 ^ 64; cg = cg })

  -- The code reads `b` and `m` of the one generator of the process, `rng`; `none` is the call of
  -- `tw_error`, which does not return.
  unfoldable pub rng_gen_reverse_val : TwRng → TwRngStream → Option (Double × TwRngStream)
  rng_gen_reverse_val rng g =
      let cg : Quad ℕ = record {
        c0 = retreat rng.b.c0 rng.m.c0 g.cg.c0;
        c1 = retreat rng.b.c1 rng.m.c1 g.cg.c1;
        c2 = retreat rng.b.c2 rng.m.c2 g.cg.c2;
        c3 = retreat rng.b.c3 rng.m.c3 g.cg.c3;
      } in
      if rng.b.c0 == 0
      then none
      else some (combine cg, record g { count = (g.count + 2 ^ 64 - 1) % 2 ^ 64; cg = cg })
