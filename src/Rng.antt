-- ===== src/Rng.antt =====
-- core/rand-clcg4.c and core/rand-clcg4.h: the combined linear congruential generator.
-- `tw_rng` holds the four moduli, multipliers and their inverses; `tw_rng_stream` is one stream.
pub mod Modular
pub mod FindB
pub mod MultModM
pub mod Component
pub mod Gen
