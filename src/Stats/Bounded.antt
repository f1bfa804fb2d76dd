-- ===== src/Stats/Bounded.antt =====
-- `st_buffer_push` writes within the array, whether output is on or off.
use ross.Prelude.{
  ℕ, ◌+◌, ◌-◌, ◌<◌, ◌≤◌, ◌≡◌, refl, List, ltb, leb, ◌==◌, length, arith, true, false, some,
  Bool-cases, inl, inr,
}
use ross.Stats.{
  StatsBuffer, Stats, write_bytes, copy_in, store, overflows, st_buffer_push, take, drop,
}
use ross.Stats.Bytes.{length-take, length-drop}

pub record InBounds (s s' : StatsBuffer) : Type 0 where
  pub write_pos : s'.write_pos ≤ s'.size
  pub size : s'.size ≡ s.size

store-InBounds :
    (s : StatsBuffer) (bytes : List ℕ)
    → s.write_pos ≤ s.size
    → length bytes ≤ s.size
    → (s' : StatsBuffer) × (store s bytes ≡ some s') × InBounds s s'
unfolding store copy_in
store-InBounds s bytes h l = elim (Bool-cases (leb (s.write_pos + length bytes) s.size)) [
  | inl f ↦ (
    record s {
      buffer = write_bytes s.buffer s.write_pos bytes;
      write_pos = s.write_pos + length bytes;
    },
    rw f refl,
    record { write_pos = ground arith; size = refl },
  )
  | inr f ↦
      let over : s.size < s.write_pos + length bytes = ground arith in
      let n : ℕ = s.size - s.write_pos in
      let sane : ltb s.size s.write_pos ≡ false = ground arith in
      let first : leb (s.write_pos + length (take n bytes)) s.size ≡ true =
        rw (length-take n bytes (omega arith)) (ground arith) in
      let second : leb (0 + length (drop n bytes)) s.size ≡ true =
        rw (length-drop n bytes) (ground arith) in
      (
        record s {
          buffer = write_bytes (write_bytes s.buffer s.write_pos (take n bytes)) 0 (drop n bytes);
          write_pos = length bytes - n;
        },
        rw (f, sane, first, second) refl,
        record { write_pos = omega arith; size = refl },
      )
]

-- With a write position within the array and no more new bytes than the array has, `st_buffer_push`
-- succeeds, which means that it writes within the array, on every branch and with output on or off,
-- and the write position stays within the array, of the same size.
pub st_buffer_push-InBounds :
    (bytes : List ℕ) (w : Stats)
    → w.buf.write_pos ≤ w.buf.size
    → length bytes ≤ w.buf.size
    → (w' : Stats) × (st_buffer_push bytes w ≡ some w') × InBounds w.buf w'.buf
unfolding st_buffer_push
st_buffer_push-InBounds bytes w h l =
    let kept : InBounds w.buf w.buf = record { write_pos = h; size = refl } in
    elim (Bool-cases (overflows w (length bytes))) [
      | inl o ↦ (record w { missed_bytes = w.missed_bytes + length bytes }, rw o refl, kept)
      | inr o ↦ elim (Bool-cases (length bytes == 0)) [
        | inl z ↦ (w, rw (o, z) refl, kept)
        | inr z ↦
            let (s, e, p) = store-InBounds w.buf bytes h l in
            (
              record w { buf = record s { count = s.count + length bytes } },
              rw (o, z, e) refl,
              record { write_pos = p.write_pos; size = p.size },
            )
      ]
    ]
