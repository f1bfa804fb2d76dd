-- ===== src/Stats/Pushed.antt =====
-- `st_buffer_push`.
use mathlib.Core.List.{append-nil}
use ross.Prelude.{
  ℕ, ◌+◌, ◌<◌, ◌≤◌, ◌≡◌, refl, sym, ◌∙◌, List, [], ◌∷◌, ◌++◌, ◌==◌, ltb, leb, length, arith,
  if◌then◌else◌, true, false, some, length-append, Bool-cases, inl, inr,
}
use ross.Stats.{
  StatsBuffer, Stats, write_bytes, read_bytes, copy_in, store, overflows, st_buffer_push,
}
use ross.Stats.Bytes.{write_bytes-below, read_bytes-same, read_bytes-write_bytes, read_bytes-add}

-- The buffer holds these bytes, from the start of the array.
pub record Holds (xs : List ℕ) (s : StatsBuffer) : Type 0 where
  pub count : s.count ≡ length xs
  pub start : s.read_pos ≡ 0
  pub end : s.write_pos ≡ length xs
  pub fits : length xs ≤ s.size
  pub bytes : read_bytes s.buffer 0 (length xs) ≡ xs

-- All of the new bytes are taken, or none of them.
abbrev pub appended : ℕ → List ℕ → List ℕ → List ℕ
appended size xs ys = if leb (length xs + length ys) size then xs ++ ys else xs

abbrev pub lost : ℕ → List ℕ → List ℕ → ℕ
lost size xs ys = if leb (length xs + length ys) size then 0 else length ys

read_bytes-append :
    (b : ℕ → ℕ) (xs ys : List ℕ)
    → read_bytes b 0 (length xs) ≡ xs
    → read_bytes (write_bytes b (length xs) ys) 0 (length (xs ++ ys)) ≡ xs ++ ys
read_bytes-append b xs ys h =
    let b' : ℕ → ℕ = write_bytes b (length xs) ys in
    let at : 0 + length xs ≡ length xs = omega arith in
    let old : read_bytes b' 0 (length xs) ≡ xs =
      read_bytes-same b' b 0 (length xs)
        (λ j l m. write_bytes-below b (length xs) ys j (omega arith))
      ∙ h in
    rw
      (
        length-append xs ys,
        read_bytes-add b' 0 (length xs) (length ys),
        old,
        at,
        read_bytes-write_bytes b (length xs) ys,
      )
      refl

-- What a push leaves.
pub record Pushed (xs ys : List ℕ) (w w' : Stats) : Type 0 where
  pub holds : Holds (appended w.buf.size xs ys) w'.buf
  pub missed : w'.missed_bytes ≡ w.missed_bytes + lost w.buf.size xs ys
  pub size : w'.buf.size ≡ w.buf.size
  pub offset : w'.prev_offset ≡ w.prev_offset
  pub output : w'.disable_out ≡ w.disable_out

push_fits :
    (xs ys : List ℕ) (w : Stats)
    → w.disable_out ≡ false
    → length xs + length ys ≤ w.buf.size
    → Holds xs w.buf
    → (w' : Stats) × (st_buffer_push ys w ≡ some w') × Pushed xs ys w w'
unfolding st_buffer_push store overflows copy_in
push_fits xs [] w o l h =
    let c : w.buf.count ≡ length xs = h.count in
    let in_time : leb (length xs + 0) w.buf.size ≡ true = ground arith in
    let free : ltb w.buf.size (length xs + 0) ≡ false = ground arith in
    (
      w,
      rw (o, c, free) refl,
      record {
        holds = rw (in_time, append-nil xs) h;
        missed = rw in_time (omega arith);
        size = refl;
        offset = refl;
        output = refl;
      },
    )
push_fits xs (y ∷ ys) w o l h =
    let zs : List ℕ = y ∷ ys in
    let c : w.buf.count ≡ length xs = h.count in
    let e : w.buf.write_pos ≡ length xs = h.end in
    let in_time : leb (length xs + length zs) w.buf.size ≡ true = ground arith in
    let free : ltb w.buf.size (length xs + length zs) ≡ false = ground arith in
    let some_bytes : (length zs == 0) ≡ false = ground arith in
    let b : ℕ → ℕ = write_bytes w.buf.buffer (length xs) zs in
    let s : StatsBuffer = record w.buf {
      buffer = b;
      write_pos = length xs + length zs;
      count = length xs + length zs;
    } in
    let kept : Holds (xs ++ zs) s = record {
      count = sym (length-append xs zs);
      start = h.start;
      end = sym (length-append xs zs);
      fits = rw (length-append xs zs) l;
      bytes = read_bytes-append w.buf.buffer xs zs h.bytes;
    } in
    (
      record w { buf = s },
      rw (o, c, free, some_bytes, e, in_time) refl,
      record {
        holds = rw in_time kept;
        missed = rw in_time (omega arith);
        size = refl;
        offset = refl;
        output = refl;
      },
    )

push_late :
    (xs ys : List ℕ) (w : Stats)
    → w.disable_out ≡ false
    → w.buf.size < length xs + length ys
    → Holds xs w.buf
    → (w' : Stats) × (st_buffer_push ys w ≡ some w') × Pushed xs ys w w'
unfolding st_buffer_push overflows
push_late xs ys w o l h =
    let c : w.buf.count ≡ length xs = h.count in
    let late : leb (length xs + length ys) w.buf.size ≡ false = ground arith in
    let full : ltb w.buf.size (length xs + length ys) ≡ true = ground arith in
    (
      record w { missed_bytes = w.missed_bytes + length ys },
      rw (o, c, full) refl,
      record {
        holds = rw late h;
        missed = rw late refl;
        size = refl;
        offset = refl;
        output = refl;
      },
    )

-- With output on, and a buffer that holds `xs` from the start of the array, `st_buffer_push`
-- succeeds and writes within the array: the buffer then holds `xs` followed by the new bytes if
-- these fit and `xs` otherwise, `missed_bytes` grows by the new bytes that were not taken, and the
-- rest of the state is as before.
pub st_buffer_push-Pushed :
    (xs ys : List ℕ) (w : Stats)
    → w.disable_out ≡ false
    → Holds xs w.buf
    → (w' : Stats) × (st_buffer_push ys w ≡ some w') × Pushed xs ys w w'
st_buffer_push-Pushed xs ys w o h = elim (Bool-cases (ltb w.buf.size (length xs + length ys))) [
  | inl l ↦ push_late xs ys w o (ground arith) h
  | inr l ↦ push_fits xs ys w o (ground arith) h
]
