-- ===== src/Examples/Maps.antt =====
-- The maps of logical processes on small ranks.
use ross.Prelude.{ℕ, ◌+◌, ◌-◌, ◌/◌, ◌≡◌, refl, none, some, arith}
use ross.Queue.Pq.{◌>>=◌}
use ross.Setup.{Rank, map_round_robin, map_linear, getlocal_linear, getlocal_round_robin, empty}
use ross.Setup.RoundRobin.{getlocal_round_robin-map_round_robin, map_round_robin-none}
use ross.Setup.Linear.{getlocal_linear-map_linear}

-- Rank 1 of 3, with four logical and two or four kernel processes.
abbrev two_kps : Rank
two_kps = record {
  nlp = 4;
  analysis_nlp = 0;
  nkp = 2;
  nkp_per_pe = 2;
  mynode = 1;
  nnodes = 3;
  pe = 0;
}

abbrev four_kps : Rank
four_kps = record two_kps { nkp = 4; nkp_per_pe = 4 }

abbrev round_up : ℕ → ℕ → ℕ
round_up a b = (a + b - 1) / b

getlocal_round_robin-map_round_robin_example :
    (map_round_robin four_kps empty >>= (λ t. getlocal_round_robin four_kps t 7))
    ≡ some (record { id = 2; gid = 7; pe = 0; kp = some 2 })
getlocal_round_robin-map_round_robin_example =
    getlocal_round_robin-map_round_robin four_kps 2 (omega arith) (omega arith) (omega arith)

map_round_robin-none_example : map_round_robin two_kps empty ≡ none
map_round_robin-none_example = map_round_robin-none two_kps (omega arith) (omega arith)

getlocal_linear-map_linear_example :
    (map_linear round_up two_kps empty >>= (λ t. getlocal_linear two_kps t 7))
    ≡ some (record { id = 3; gid = 7; pe = 0; kp = some 1 })
getlocal_linear-map_linear_example =
    getlocal_linear-map_linear round_up two_kps 3 (record { le = omega arith; lt = omega arith })
      refl (omega arith)
