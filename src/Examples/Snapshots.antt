-- ===== src/Examples/Snapshots.antt =====
-- A snapshot and its restore with a compressor that keeps the bytes as they are.
use ross.Prelude.{ℕ, ◌≡◌, refl, true, List, [], ◌∷◌, length, none, some, leb, arith, if◌then◌else◌}
use ross.Queue.Pq.{◌>>=◌}
use ross.Delta.{Compressor, Deltas, tw_snapshot, tw_snapshot_delta, tw_snapshot_restore}
use ross.Delta.Restored.{IsLossless, HasRoom, tw_snapshot_restore-delta}

abbrev plain : Compressor
plain = record {
  compress = λ xs room. if leb (length xs) room then some xs else none;
  decompress = λ xs n. some xs;
  bound = λ n. n;
  delta_sz = 3;
  alloc = λ n. true;
}

plain-IsLossless : IsLossless plain
plain-IsLossless = record {
  packs = λ xs room h.
      (xs, (let fits : leb (length xs) room ≡ true = ground arith in rw fits refl), h, refl);
}

abbrev zeros : List ℕ
zeros = 0 ∷ 0 ∷ 0 ∷ []

abbrev two_states : Deltas
two_states = record {
  cur_state = 250 ∷ 3 ∷ [];
  buffer0 = some zeros;
  buffer1 = zeros;
  delta_buddy = none;
  delta_size = 0;
}

two_states-HasRoom : HasRoom plain 2 zeros two_states
two_states-HasRoom = record {
  snapshot = refl;
  first = omega arith;
  bound = omega arith;
  second = omega arith;
}

tw_snapshot_restore-delta_example :
    (tw_snapshot 2 two_states
      >>= (λ t1. tw_snapshot_delta plain 2 (record t1 { cur_state = 4 ∷ 200 ∷ [] }))
      >>= (λ out. tw_snapshot_restore plain 2 (out.0))
      >>= (λ t3. some t3.cur_state))
    ≡ some (250 ∷ 3 ∷ [])
tw_snapshot_restore-delta_example =
    tw_snapshot_restore-delta plain (4 ∷ 200 ∷ []) zeros two_states plain-IsLossless
      two_states-HasRoom (λ n h. refl) refl (omega arith, (omega arith, record {}))
      (omega arith, (omega arith, record {}))
