-- ===== src/Examples/Generator.antt =====
-- core/rand-clcg4.c at concrete inputs.
use ross.Prelude.{refl, All, ℕ, ◌+◌, ◌-◌, ◌*◌, ◌/◌, ◌%◌, ◌^◌, ◌<◌, ◌≡◌, none, some, arith, ltb, leb}
use ross.Prelude.Int.{pos}
use ross.Rng.FindB.{find_b, squares, find_b-pow}
use ross.Rng.MultModM.{mult_mod_m, mult_mod_m-mod}
use ross.Rng.Component.{advance, second, advance_fits}
use ross.Rng.Gen.{TwRng, TwRngStream, Doubles}
use ross.Rng.Gen.Init.{quad, rng_init, rng_core_init, tw_rand_initial_seed, initial_ig}
use ross.Rng.Gen.Reverse.{IsValid, Reverses, rng_init-Reverses, draw, undo, undo-draw}
use ross.Rng.Gen.Streams.{
  lp_stream_id, core_stream_id, lp_stream_id_injective, core_stream_id_apart, tw_rand_init_streams,
  Seeded, tw_rand_init_streams-Seeded, tw_rand_initial_seed-IsValid,
}
use ross.Rng.Gen.Seed.{IsModulus, initial_ig-pow}

-- A stand-in for the type `double`, enough to run the integer part of the generator.
abbrev whole_numbers : Doubles
whole_numbers = record {
  Double = ℕ;
  of_int = λ n. n;
  literal = λ digits power. digits / 10 ^ power;
  plus = λ a b. a + b;
  minus = λ a b. a - b;
  times = λ a b. a * b;
  less = ltb;
  at_least = λ a b. leb b a;
}

abbrev start : TwRngStream
start = record {
  count = 0;
  ig = quad 11111111 22222222 33333333 44444444;
  lg = quad 11111111 22222222 33333333 44444444;
  cg = quad 11111111 22222222 33333333 44444444;
}

start-IsValid : IsValid start
start-IsValid = record {
  positive = (omega arith, omega arith, omega arith, omega arith);
  below = (omega arith, omega arith, omega arith, omega arith);
  counted = omega arith;
}

abbrev generator : TwRng
generator = rng_init none 31 41

generator-Reverses : Reverses generator
generator-Reverses = rng_init-Reverses none 31 41

undo-draw_example : undo whole_numbers generator 5 (draw whole_numbers 5 start) ≡ some start
undo-draw_example = undo-draw whole_numbers generator-Reverses 5 start-IsValid

rng_init-Reverses_example : Reverses (rng_init (some (quad 0 7 4294967295 9)) 2 3)
rng_init-Reverses_example = rng_init-Reverses (some (quad 0 7 4294967295 9)) 2 3

mult_mod_m-mod_example :
    mult_mod_m (pos 2000000000) (pos 2147483000) 2147483647 ≡ 2000000000 * 2147483000 % 2147483647
mult_mod_m-mod_example =
    mult_mod_m-mod 2000000000 2147483000 2147483647 (omega arith) (omega arith) (omega arith)
      (omega arith)

advance_fits_example :
    (207707 * (22222222 - 22222222 / 10339 * 10339) < 2 ^ 31)
    × (22222222 / 10339 * 870 < 2 ^ 31)
    × (advance 207707 10339 870 2147483543 22222222 < 2147483543)
advance_fits_example = advance_fits 22222222 second (omega arith)

find_b-pow_example :
    (find_b 45991 2147483645 2147483647 ≡ 45991 ^ 2147483645 % 2147483647)
    × All (λ s. s < 2 ^ 31) (squares 32 45991 2147483647)
find_b-pow_example =
    find_b-pow 45991 2147483645 2147483647 (omega arith) (omega arith) (omega arith) (omega arith)

first-IsModulus : IsModulus 2147483647
first-IsModulus = record { low = omega arith; high = omega arith }

initial_ig-pow_example :
    initial_ig 11 45991 2147483647 11111111 ≡ 45991 ^ 11 * 11111111 % 2147483647
initial_ig-pow_example =
    initial_ig-pow first-IsModulus 11 45991 11111111 (omega arith) (omega arith) (omega arith)

lp_stream_id_injective_example : (◌≡◌ {A = ℕ} 5 5) × (◌≡◌ {A = ℕ} 2 2)
lp_stream_id_injective_example =
    lp_stream_id_injective 3 8 5 5 2 2 (omega arith) (omega arith) (omega arith) (omega arith)
      (omega arith) refl

core_stream_id_apart_example : lp_stream_id 3 7 2 < core_stream_id 3 2 8 0 0
core_stream_id_apart_example =
    core_stream_id_apart 3 2 8 7 0 2 0 (omega arith) (omega arith) (omega arith) (omega arith)
      (omega arith) (omega arith)

tw_rand_init_streams-Seeded_example :
    Seeded 2 1 (tw_rand_init_streams generator (rng_core_init none generator) 3 1 8 5 2 1)
tw_rand_init_streams-Seeded_example =
    tw_rand_init_streams-Seeded generator (rng_core_init none generator) 3 1 8 5 2 1 (omega arith)
      (omega arith)

tw_rand_initial_seed-IsValid_example : IsValid (tw_rand_initial_seed start 12 generator)
tw_rand_initial_seed-IsValid_example = tw_rand_initial_seed-IsValid start 12 generator

-- With 2 ^ 32 streams of logical processes the first core stream has the identifier of the first one.
core_wrap : core_stream_id 4096 1 1048576 0 0 ≡ lp_stream_id 4096 0 0
unfolding core_stream_id lp_stream_id
core_wrap = refl
