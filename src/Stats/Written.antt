-- ===== src/Stats/Written.antt =====
-- `st_buffer_write`, at the end of the simulation or when a rank is above the threshold.
use ross.Prelude.{
  ℕ, zero, suc, ◌+◌, ◌≤◌, ◌≡◌, refl, sym, subst, ap, ◌∙◌, List, [], ◌++◌, ltb, leb, length, arith,
  ℕ_discrete, if◌then◌else◌, Bool, true, false, ◌||◌, some,
}
use ross.Queue.Pq.{◌>>=◌}
use ross.Stats.{
  Stats, Gathered, read_bytes, offsets, some_due, copy_out, reset, st_buffer_write, st_buffer_push,
}
use ross.Stats.Pushed.{Holds, st_buffer_push-Pushed}

-- The bytes of the ranks below `n`.
abbrev pub total : (ℕ → ℕ) → ℕ → ℕ
total sizes zero = 0
total sizes (suc n) = total sizes n + sizes n

offsets-below :
    (sizes : ℕ → ℕ) (mynode prev n : ℕ)
    → n ≤ mynode
    → offsets sizes mynode prev n ≡ (prev + total sizes n, prev + total sizes n)
unfolding offsets
offsets-below sizes mynode prev zero h =
    (let e : prev ≡ prev + 0 = omega arith in ap (λ o. (o, o)) e)
offsets-below sizes mynode prev (suc n) h =
    let mine : ltb n mynode ≡ true = ground arith in
    let e : prev + total sizes n + sizes n ≡ prev + (total sizes n + sizes n) = omega arith in
    rw (offsets-below sizes mynode prev n (omega arith), mine, e) refl

-- Each rank writes behind the ranks below it, and the next write starts behind all of them.
offsets-total :
    (sizes : ℕ → ℕ) (mynode prev n : ℕ)
    → mynode ≤ n
    → offsets sizes mynode prev n ≡ (prev + total sizes mynode, prev + total sizes n)
unfolding offsets
offsets-total sizes mynode prev zero h =
    let none_below : mynode ≡ 0 = omega arith in
    rw none_below (offsets-below sizes 0 prev 0 (omega arith))
offsets-total sizes mynode prev (suc n) h = elim (ℕ_discrete mynode (suc n)) [
  | yes e ↦
      subst (λ m. offsets sizes m prev (suc n) ≡ (prev + total sizes m, prev + total sizes (suc n)))
        (sym e) (offsets-below sizes (suc n) prev (suc n) (omega arith))
  | no ne ↦
      let above : ltb n mynode ≡ false = ground arith in
      let e : prev + total sizes n + sizes n ≡ prev + (total sizes n + sizes n) = omega arith in
      rw (offsets-total sizes mynode prev n (omega arith), above, e) refl
]

-- What a write leaves of the state.
abbrev pub flushed : Gathered → Stats → Stats
flushed g w = record w { buf = reset w.buf; prev_offset = w.prev_offset + total g.sizes g.nnodes }

pub st_buffer_write-Holds :
    (xs : List ℕ) (e : Bool) (g : Gathered) (w : Stats)
    → (e || some_due g.due g.sizes g.nnodes) ≡ true
    → g.mynode ≤ g.nnodes
    → Holds xs w.buf
    → st_buffer_write e g w
      ≡ some (
        flushed g w,
        some (record { offset = w.prev_offset + total g.sizes g.mynode; bytes = xs }),
      )
unfolding st_buffer_write copy_out
st_buffer_write-Holds xs e g w d m h =
    let c : w.buf.count ≡ length xs = h.count in
    let s : w.buf.read_pos ≡ 0 = h.start in
    let f : length xs ≤ w.buf.size = h.fits in
    let inside : leb (0 + length xs) w.buf.size ≡ true = ground arith in
    rw (d, s, c, inside, h.bytes, offsets-total g.sizes g.mynode w.prev_offset g.nnodes m) refl

-- With output on, a buffer that holds `xs`, new bytes that fit, and this rank among the ranks: a
-- push and the write at the end of the simulation give the file `xs` and then the new bytes, once
-- and in order, behind the bytes of the lower ranks, and the next write starts behind all ranks.
pub st_buffer_write-push :
    (xs ys : List ℕ) (g : Gathered) (w : Stats)
    → w.disable_out ≡ false
    → length xs + length ys ≤ w.buf.size
    → g.mynode ≤ g.nnodes
    → Holds xs w.buf
    → (out : Stats) × ((st_buffer_push ys w >>= st_buffer_write true g)
        ≡ some (
          out,
          some (record { offset = w.prev_offset + total g.sizes g.mynode; bytes = xs ++ ys }),
        ))
      × Holds [] out.buf
      × (out.prev_offset ≡ w.prev_offset + total g.sizes g.nnodes)
unfolding reset read_bytes
st_buffer_write-push xs ys g w o f m h =
    let (w', e, p) = st_buffer_push-Pushed xs ys w o h in
    let fits : leb (length xs + length ys) w.buf.size ≡ true = ground arith in
    let held : Holds (xs ++ ys) w'.buf =
      subst (λ b. Holds (if b then xs ++ ys else xs) w'.buf) fits p.holds in
    let q : w'.prev_offset ≡ w.prev_offset = p.offset in
    (
      flushed g w',
      ap (λ r. r >>= st_buffer_write true g) e
          ∙ st_buffer_write-Holds (xs ++ ys) true g w' refl m held
          ∙ ap
              (λ k. some (
                flushed g w',
                some (record { offset = k + total g.sizes g.mynode; bytes = xs ++ ys }),
              ))
              q,
      record { count = refl; start = refl; end = refl; fits = omega arith; bytes = refl },
      ap (λ k. k + total g.sizes g.nnodes) q,
    )
