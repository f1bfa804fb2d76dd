-- ===== src/Delta.antt =====
-- Snapshots and state deltas of core/tw-state.c. The compressor, core/lz4.c, and the success of
-- `buddy_alloc` are parameters.
pub mod Restored
use ross.Prelude.{
  ℕ, zero, suc, ◌+◌, ◌-◌, ◌%◌, ◌^◌, ◌≤◌, ◌<◌, ◌≡◌, Bool, true, false, Option, none, some, List, [],
  ◌∷◌, length, if◌then◌else◌,
}
use ross.Queue.Pq.{Run, ◌>>=◌}

-- `LZ4_compress_fast_extState` for a number of bytes of room and `LZ4_decompress_fast` for the size
-- of the result, where `none` is a negative result, and `LZ4_compressBound`.
pub record Compressor : Type 0 where
  pub compress : List ℕ → ℕ → Option (List ℕ)
  pub decompress : List ℕ → ℕ → Option (List ℕ)
  pub bound : ℕ → ℕ
  pub delta_sz : ℕ
  pub alloc : ℕ → Bool

-- The state of the process, the first two delta buffers, and the delta of the current event.
pub record Deltas : Type 0 where
  pub cur_state : List ℕ
  pub buffer0 : Option (List ℕ)
  pub buffer1 : List ℕ
  pub delta_buddy : Option (List ℕ)
  pub delta_size : ℕ

-- `memcpy` of `n` bytes; a byte outside of an array is a fault.
unfoldable pub copy : ℕ → List ℕ → List ℕ → Run (List ℕ)
copy zero xs ys = some ys
copy (suc n) [] ys = none
copy (suc n) (x ∷ xs) [] = none
copy (suc n) (x ∷ xs) (y ∷ ys) = do zs ← copy n xs ys; some (x ∷ zs)

unfoldable pub prefix : ℕ → List ℕ → Run (List ℕ)
prefix zero xs = some []
prefix (suc n) [] = none
prefix (suc n) (x ∷ xs) = do ys ← prefix n xs; some (x ∷ ys)

-- The difference of two values of type `unsigned char`.
unfoldable pub minus : ℕ → ℕ → ℕ
minus a b = (a + 256 - b) % 2 ^ 8

-- `snapshot[i] = current_state[i] - snapshot[i]`.
unfoldable pub delta_loop : ℕ → List ℕ → List ℕ → Run (List ℕ)
unfolding minus
delta_loop zero xs ys = some ys
delta_loop (suc n) [] ys = none
delta_loop (suc n) (x ∷ xs) [] = none
delta_loop (suc n) (x ∷ xs) (y ∷ ys) = do zs ← delta_loop n xs ys; some (minus x y ∷ zs)

-- `current_state[i] = current_state[i] - snapshot[i]`.
unfoldable pub restore_loop : ℕ → List ℕ → List ℕ → Run (List ℕ)
unfolding minus
restore_loop zero xs ys = some xs
restore_loop (suc n) [] ys = none
restore_loop (suc n) (x ∷ xs) [] = none
restore_loop (suc n) (x ∷ xs) (y ∷ ys) = do zs ← restore_loop n xs ys; some (minus x y ∷ zs)

unfoldable pub tw_snapshot : ℕ → Deltas → Run Deltas
unfolding copy
tw_snapshot state_sz t = do
  old ← t.buffer0
  snapshot ← copy state_sz t.cur_state old
  some (record t { buffer0 = some snapshot })

unfoldable pub tw_snapshot_delta : Compressor → ℕ → Deltas → Run (Deltas × ℕ)
unfolding delta_loop copy prefix
tw_snapshot_delta m state_sz t = do
  old ← t.buffer0
  snapshot ← delta_loop state_sz t.cur_state old
  source ← prefix state_sz snapshot
  packed ← m.compress source m.delta_sz
  buffer1 ← copy (length packed) packed t.buffer1
  delta ← prefix (length packed) buffer1
  if m.alloc (length packed)
      then some (
        record t {
          buffer0 = some snapshot;
          buffer1 = buffer1;
          delta_buddy = some delta;
          delta_size = length packed;
        },
        length packed,
      )
      else none

unfoldable pub tw_snapshot_restore : Compressor → ℕ → Deltas → Run Deltas
unfolding copy restore_loop
tw_snapshot_restore m state_sz t = do
  packed ← t.delta_buddy
  source ← m.decompress packed state_sz
  old ← t.buffer0
  snapshot ← copy state_sz source old
  state ← restore_loop state_sz t.cur_state snapshot
  some (record t { cur_state = state; buffer0 = some snapshot })
