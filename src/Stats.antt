-- ===== src/Stats.antt =====
-- The buffer of core/instrumentation/st-stats-buffer.c, with the macros of
-- core/instrumentation/st-instrumentation.h.
pub mod Bytes
pub mod Pushed
pub mod Written
pub mod Bounded
use ross.Prelude.{
  ℕ, zero, suc, ◌+◌, ◌-◌, Bool, true, false, not, Option, none, some, List, [], ◌∷◌, ltb, leb, ◌&&◌,
  if◌then◌else◌, length, ◌==◌, ◌||◌,
}
use ross.Queue.Pq.{Run, ◌>>=◌}

-- `st_stats_buffer`; `buffer` gives the byte at each position below `size`.
pub record StatsBuffer : Type 0 where
  pub size : ℕ
  pub write_pos : ℕ
  pub read_pos : ℕ
  pub count : ℕ
  pub buffer : ℕ → ℕ

-- The statics of the file that belong to one type of data, and `g_st_disable_out`.
-- The flag of the printed warning is left out.
pub record Stats : Type 0 where
  pub buf : StatsBuffer
  pub missed_bytes : ℕ
  pub prev_offset : ℕ
  pub disable_out : Bool

abbrev pub take : {A : Type 0} → ℕ → List A → List A
take zero xs = []
take (suc n) [] = []
take (suc n) (x ∷ xs) = x ∷ take n xs

abbrev pub drop : {A : Type 0} → ℕ → List A → List A
drop zero xs = xs
drop (suc n) [] = []
drop (suc n) (x ∷ xs) = drop n xs

-- `bytes` from `pos` on.
unfoldable pub write_bytes : (ℕ → ℕ) → ℕ → List ℕ → ℕ → ℕ
write_bytes b pos [] = b
write_bytes b pos (x ∷ xs) =
    let rest : ℕ → ℕ = write_bytes b (pos + 1) xs in λ j. if j == pos then x else rest j

unfoldable pub read_bytes : (ℕ → ℕ) → ℕ → ℕ → List ℕ
read_bytes b pos zero = []
read_bytes b pos (suc n) = b pos ∷ read_bytes b (pos + 1) n

-- `memcpy` into the array; a byte outside of it is a fault.
unfoldable pub copy_in : StatsBuffer → ℕ → List ℕ → Run StatsBuffer
copy_in s pos bytes =
    if leb (pos + length bytes) s.size
    then some (record s { buffer = write_bytes s.buffer pos bytes })
    else none

-- The copy of all the data, whose size is not 0; a negative `size1` is a fault.
unfoldable pub store : StatsBuffer → List ℕ → Run StatsBuffer
unfolding copy_in
store s bytes =
    if leb (s.write_pos + length bytes) s.size
    then copy_in s s.write_pos bytes
      >>= (λ s1. some (record s1 { write_pos = s.write_pos + length bytes }))
    else if ltb s.size s.write_pos
    then none
    else do
      let size1 = s.size - s.write_pos
      s1 ← copy_in s s.write_pos (take size1 bytes)
      s2 ← copy_in s1 0 (drop size1 bytes)
      some (record s2 { write_pos = length bytes - size1 })

-- `st_buffer_free_space(buf) < size`, of signed numbers.
unfoldable pub overflows : Stats → ℕ → Bool
overflows w n = not w.disable_out && ltb w.buf.size (w.buf.count + n)

unfoldable pub st_buffer_push : List ℕ → Stats → Run Stats
unfolding store overflows
st_buffer_push bytes w =
    if overflows w (length bytes)
    then some (record w { missed_bytes = w.missed_bytes + length bytes })
    else if length bytes == 0
    then some w
    else do
      s ← store w.buf bytes
      some (record w { buf = record s { count = s.count + length bytes } })

-- `offset` and `prev_offsets[type]` of `st_buffer_write` after `n` rounds of its loop.
unfoldable pub offsets : (ℕ → ℕ) → ℕ → ℕ → ℕ → ℕ × ℕ
offsets sizes mynode prev zero = (prev, prev)
offsets sizes mynode prev (suc n) =
    let (offset, next) = offsets sizes mynode prev n in
    (if ltb n mynode then offset + sizes n else offset, next + sizes n)

-- Whether one of the first `n` ranks is above the threshold.
unfoldable pub some_due : (ℕ → Bool) → (ℕ → ℕ) → ℕ → Bool
some_due due sizes zero = false
some_due due sizes (suc n) =
    let before : Bool = some_due due sizes n in if due (sizes n) then true else before

-- What `MPI_File_write_at_all` is given.
pub record FileWrite : Type 0 where
  pub offset : ℕ
  pub bytes : List ℕ

-- The rank, the number of ranks, the gathered sizes, and the threshold, which is taken in `double`.
pub record Gathered : Type 0 where
  pub mynode : ℕ
  pub nnodes : ℕ
  pub sizes : ℕ → ℕ
  pub due : ℕ → Bool

-- The bytes from the read position on; a byte outside of the array is a fault.
unfoldable pub copy_out : StatsBuffer → Run (List ℕ)
copy_out s =
    if leb (s.read_pos + s.count) s.size
    then some (read_bytes s.buffer s.read_pos s.count)
    else none

unfoldable pub reset : StatsBuffer → StatsBuffer
reset s = record s { write_pos = 0; read_pos = 0; count = 0 }

unfoldable pub st_buffer_write : Bool → Gathered → Stats → Run (Stats × Option FileWrite)
unfolding offsets some_due copy_out reset
st_buffer_write end_of_sim g w =
    if end_of_sim || some_due g.due g.sizes g.nnodes
    then copy_out w.buf >>= (λ bytes.
      let (offset, next) = offsets g.sizes g.mynode w.prev_offset g.nnodes in
      some (
        record w { buf = reset w.buf; prev_offset = next },
        some (record { offset = offset; bytes = bytes }),
      ))
    else some (w, none)
