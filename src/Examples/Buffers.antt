-- ===== src/Examples/Buffers.antt =====
-- The statistics buffer on a small array.
use ross.Prelude.{ℕ, ◌≡◌, ◌==◌, refl, [], ◌∷◌, true, false, some, arith, if◌then◌else◌}
use ross.Queue.Pq.{◌>>=◌}
use ross.Stats.{Stats, Gathered, read_bytes, st_buffer_push, st_buffer_write}
use ross.Stats.Pushed.{Holds, Pushed, st_buffer_push-Pushed}
use ross.Stats.Written.{st_buffer_write-push}
use ross.Stats.Bounded.{InBounds, st_buffer_push-InBounds}

abbrev bytes_of : ℕ → ℕ
bytes_of j = if j == 0 then 5 else if j == 1 then 6 else 0

-- Two bytes in an array of four.
abbrev two_bytes : Stats
two_bytes = record {
  buf = record { size = 4; write_pos = 2; read_pos = 0; count = 2; buffer = bytes_of };
  missed_bytes = 0;
  prev_offset = 100;
  disable_out = false;
}

two_bytes-Holds : Holds (5 ∷ 6 ∷ []) two_bytes.buf
unfolding read_bytes
two_bytes-Holds = record {
  count = refl;
  start = refl;
  end = refl;
  fits = omega arith;
  bytes = refl;
}

-- Rank 1 of 2.
abbrev gathered : Gathered
gathered = record { mynode = 1; nnodes = 2; sizes = λ k. 3; due = λ n. false }

st_buffer_push-Pushed_example :
    (w' : Stats) × (st_buffer_push (7 ∷ 8 ∷ 9 ∷ []) two_bytes ≡ some w')
    × Pushed (5 ∷ 6 ∷ []) (7 ∷ 8 ∷ 9 ∷ []) two_bytes w'
st_buffer_push-Pushed_example =
    st_buffer_push-Pushed (5 ∷ 6 ∷ []) (7 ∷ 8 ∷ 9 ∷ []) two_bytes refl two_bytes-Holds

st_buffer_write-push_example :
    (out : Stats) × ((st_buffer_push (7 ∷ []) two_bytes >>= st_buffer_write true gathered)
      ≡ some (out, some (record { offset = 103; bytes = 5 ∷ 6 ∷ 7 ∷ [] })))
    × Holds [] out.buf
    × (out.prev_offset ≡ 106)
st_buffer_write-push_example =
    st_buffer_write-push (5 ∷ 6 ∷ []) (7 ∷ []) gathered two_bytes refl (omega arith) (omega arith)
      two_bytes-Holds

-- With output off the bytes wrap around.
abbrev silent : Stats
silent = record two_bytes { disable_out = true }

st_buffer_push-InBounds_example :
    (w' : Stats) × (st_buffer_push (7 ∷ 8 ∷ 9 ∷ []) silent ≡ some w') × InBounds silent.buf w'.buf
st_buffer_push-InBounds_example =
    st_buffer_push-InBounds (7 ∷ 8 ∷ 9 ∷ []) silent (omega arith) (omega arith)
