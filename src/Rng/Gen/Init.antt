-- ===== src/Rng/Gen/Init.antt =====
-- Seeding: `clamp_seed`, `rng_init`, `rng_core_init`, `rng_init_generator`, `rng_set_seed`,
-- `rng_get_state`, `rng_put_state` and `tw_rand_initial_seed` of core/rand-clcg4.c.
use ross.Prelude.{ℕ, zero, suc, ◌-◌, ◌/◌, ◌%◌, ◌^◌, Option, none, some, ◌==◌, ltb, if◌then◌else◌}
use ross.Prelude.Int.{pos}
use ross.Rng.FindB.{find_b}
use ross.Rng.MultModM.{mult_mod_m}
use ross.Rng.Gen.{Quad, TwRng, TwRngStream}

-- `for (j = 0; j < 4; j++)` over one, two or three arrays.
abbrev pub quad_map : {A B : Type 0} → (A → B) → Quad A → Quad B
quad_map f x = record { c0 = f x.c0; c1 = f x.c1; c2 = f x.c2; c3 = f x.c3 }

abbrev pub quad_map₂ : {A B C : Type 0} → (A → B → C) → Quad A → Quad B → Quad C
quad_map₂ f x y = record { c0 = f x.c0 y.c0; c1 = f x.c1 y.c1; c2 = f x.c2 y.c2; c3 = f x.c3 y.c3 }

abbrev pub quad : {A : Type 0} → A → A → A → A → Quad A
quad x y z w = record { c0 = x; c1 = y; c2 = z; c3 = w }

-- `m[0..3]`, `a[0..3]`, and `S0_MAX` to `S3_MAX`, which are the moduli less 1.
abbrev pub moduli : Quad ℕ
moduli = quad 2147483647 2147483543 2147483423 2147483323

abbrev pub multipliers : Quad ℕ
multipliers = quad 45991 207707 138556 49689

abbrev pub seed_max : Quad ℕ
seed_max = quad 2147483646 2147483542 2147483422 2147483322

-- The code reads the seeds as `uint32_t`.
clamp : ℕ → ℕ → ℕ
clamp max s = let s' = if ltb s 1 then 1 else s in if ltb max s' then max else s'

unfoldable pub clamp_seed : Quad ℕ → Quad ℕ
unfolding clamp
clamp_seed s = quad_map₂ clamp seed_max s

-- `for (i = 1; i <= n; i++) x = MultModM(x, x, m);`
unfoldable pub square_times : ℕ → ℕ → ℕ → ℕ
square_times zero x m = x
square_times (suc n) x m = square_times n (mult_mod_m (pos x) (pos x) m) m

-- The seed is `g_tw_rng_seed`, where one is given.
chosen_seed : Option (Quad ℕ) → Quad ℕ → Quad ℕ
chosen_seed none default = default
chosen_seed (some s) default = clamp_seed s

unfoldable pub rng_init : Option (Quad ℕ) → ℕ → ℕ → TwRng
unfolding chosen_seed
rng_init g_tw_rng_seed v w =
    let aw = quad_map₂ (square_times w) multipliers moduli in
    record {
      b = quad_map₂ (λ a m. find_b a (m - 2) m) multipliers moduli;
      m = moduli;
      a = multipliers;
      aw = aw;
      avw = quad_map₂ (square_times v) aw moduli;
      seed = chosen_seed g_tw_rng_seed (quad 11111111 22222222 33333333 44444444);
    }

-- The arguments v and w are not read: all but the seed is a copy of the generator `rng`.
unfoldable pub rng_core_init : Option (Quad ℕ) → TwRng → TwRng
unfolding chosen_seed
rng_core_init g_tw_core_rng_seed rng = record rng {
  seed = chosen_seed g_tw_core_rng_seed (quad 55555555 66666666 77777777 88888888);
}

pub data SeedType : Type 0 where
  initial_seed last_seed new_seed : SeedType

-- The new `Lg` of one stream.
new_lg : SeedType → TwRngStream → TwRng → Quad ℕ
new_lg initial_seed g the_rng = g.ig
new_lg new_seed g the_rng =
    let step = λ (x : ℕ × ℕ) (m : ℕ). mult_mod_m (pos x.0) (pos x.1) m in
    quad_map₂ step (quad_map₂ (λ aw lg. (aw, lg)) the_rng.aw g.lg) the_rng.m
new_lg last_seed g the_rng = g.lg

unfoldable pub rng_init_generator : TwRngStream → SeedType → TwRng → TwRngStream
unfolding new_lg
rng_init_generator g type the_rng = let lg = new_lg type g the_rng in record g { lg = lg; cg = lg }

unfoldable pub rng_set_seed : TwRngStream → Quad ℕ → TwRng → TwRngStream
rng_set_seed g s the_rng = rng_init_generator (record g { ig = clamp_seed s }) initial_seed the_rng

unfoldable pub rng_get_state : TwRngStream → Quad ℕ
rng_get_state g = g.cg

unfoldable pub rng_put_state : TwRngStream → Quad ℕ → TwRngStream
rng_put_state g s = record g { cg = s }

-- One component under `if (id & mask_bit)`: `avw` squared `positions` times, then multiplied in.
unfoldable pub jump : ℕ → ℕ → ℕ → ℕ → ℕ
jump positions avw ig m = mult_mod_m (pos (square_times positions avw m)) (pos ig) m

-- The loop `do { ... mask_bit >>= 1; positions--; } while (positions > 0);`, where bit `positions`
-- of `mask_bit` is the one set.
unfoldable pub seed_loop : ℕ → ℕ → ℕ → ℕ → ℕ → ℕ
seed_loop zero id avw m ig = ig
seed_loop (suc positions) id avw m ig =
    let ig' = if id / 2 ^ suc positions % 2 == 0 then ig else jump (suc positions) avw ig m in
    seed_loop positions id avw m ig'

-- One component of `Ig_t` before it is clamped. A `tw_lpid` has 64 bits.
unfoldable pub initial_ig : ℕ → ℕ → ℕ → ℕ → ℕ
initial_ig id avw m seed =
    let ig = seed_loop 63 id avw m seed in
    if id % 2 == 0 then ig else mult_mod_m (pos avw) (pos ig) m

unfoldable pub tw_rand_initial_seed : TwRngStream → ℕ → TwRng → TwRngStream
tw_rand_initial_seed g id the_rng =
    let component = λ (x : ℕ × ℕ) (seed : ℕ). initial_ig id x.0 x.1 seed in
    let params = quad_map₂ (λ avw m. (avw, m)) the_rng.avw the_rng.m in
    let ig = clamp_seed (quad_map₂ component params the_rng.seed) in
    rng_init_generator (record g { count = 0; ig = ig }) initial_seed the_rng
