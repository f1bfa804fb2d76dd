-- ===== src/Delta/Restored.antt =====
-- A restored state.
use ross.Prelude.{
  ℕ, zero, suc, ◌≤◌, ◌<◌, ◌≡◌, refl, ap, true, some, List, [], ◌∷◌, ◌++◌, length, arith, All,
  length-append, subst,
}
use ross.Queue.Pq.{◌>>=◌}
use ross.Delta.{
  Compressor, Deltas, copy, prefix, minus, delta_loop, restore_loop, tw_snapshot, tw_snapshot_delta,
  tw_snapshot_restore,
}

abbrev pub IsByte : ℕ → Type 0
IsByte x = x < 256

minus-minus : (x y : ℕ) → IsByte x → IsByte y → minus x (minus x y) ≡ y
unfolding minus
minus-minus x y h k = omega arith

-- The differences of two states.
abbrev differences : List ℕ → List ℕ → List ℕ
differences [] ys = []
differences (x ∷ xs) [] = []
differences (x ∷ xs) (y ∷ ys) = minus x y ∷ differences xs ys

copy-room :
    (n : ℕ) (xs ys : List ℕ)
    → length xs ≡ n
    → n ≤ length ys
    → (zs : List ℕ) × (copy n xs ys ≡ some (xs ++ zs))
unfolding copy
copy-room zero [] ys h l = (ys, refl)
copy-room zero (x ∷ xs) ys h l = absurd (omega arith)
copy-room (suc n) [] ys h l = absurd (omega arith)
copy-room (suc n) (x ∷ xs) [] h l = absurd (omega arith)
copy-room (suc n) (x ∷ xs) (y ∷ ys) h l =
    let (zs, e) = copy-room n xs ys (omega arith) (omega arith) in (zs, rw e refl)

prefix-append : (xs zs : List ℕ) → prefix (length xs) (xs ++ zs) ≡ some xs
unfolding prefix
prefix-append [] zs = refl
prefix-append (x ∷ xs) zs = rw (prefix-append xs zs) refl

delta_loop-append :
    (xs ys zs : List ℕ)
    → length ys ≡ length xs
    → delta_loop (length xs) xs (ys ++ zs) ≡ some (differences xs ys ++ zs)
unfolding delta_loop
delta_loop-append [] [] zs h = refl
delta_loop-append [] (y ∷ ys) zs h = absurd (omega arith)
delta_loop-append (x ∷ xs) [] zs h = absurd (omega arith)
delta_loop-append (x ∷ xs) (y ∷ ys) zs h = rw (delta_loop-append xs ys zs (omega arith)) refl

restore_loop-append :
    (xs ys zs : List ℕ)
    → length ys ≡ length xs
    → All IsByte xs
    → All IsByte ys
    → restore_loop (length xs) xs (differences xs ys ++ zs) ≡ some ys
unfolding restore_loop
restore_loop-append [] [] zs h a b = refl
restore_loop-append [] (y ∷ ys) zs h a b = absurd (omega arith)
restore_loop-append (x ∷ xs) [] zs h a b = absurd (omega arith)
restore_loop-append (x ∷ xs) (y ∷ ys) zs h a b =
    rw (restore_loop-append xs ys zs (omega arith) (a.1) (b.1), minus-minus x y (a.0) (b.0)) refl

length-differences :
    (xs ys : List ℕ) → length ys ≡ length xs → length (differences xs ys) ≡ length xs
length-differences [] ys h = refl
length-differences (x ∷ xs) [] h = absurd (omega arith)
length-differences (x ∷ xs) (y ∷ ys) h = ap suc (length-differences xs ys (omega arith))

-- The documented behaviour of the compressor: with room for the bound it succeeds, within the room,
-- and the result decompresses to what was compressed.
pub record IsLossless (m : Compressor) : Type 0 where
  pub packs :
      (xs : List ℕ) (room : ℕ)
      → m.bound (length xs) ≤ room
      → (ys : List ℕ) × (m.compress xs room ≡ some ys)
        × (length ys ≤ room)
        × (m.decompress ys (length xs) ≡ some xs)

-- The delta buffers are allocated with `g_tw_delta_sz` bytes, which is at least the bound for the
-- size of the state.
pub record HasRoom (m : Compressor) (state_sz : ℕ) (b0 : List ℕ) (t : Deltas) : Type 0 where
  pub snapshot : t.buffer0 ≡ some b0
  pub first : state_sz ≤ length b0
  pub bound : m.bound state_sz ≤ m.delta_sz
  pub second : m.delta_sz ≤ length t.buffer1

-- With a lossless compressor, allocated delta buffers, memory for every delta, and two states of
-- the same size made of bytes: after a snapshot, any change of the state to the new one and the
-- making of the delta, the restore succeeds and gives the old state back.
pub tw_snapshot_restore-delta :
    (m : Compressor) (new b0 : List ℕ) (t : Deltas)
    → IsLossless m
    → HasRoom m (length new) b0 t
    → ((n : ℕ) → n ≤ m.delta_sz → m.alloc n ≡ true)
    → length t.cur_state ≡ length new
    → All IsByte t.cur_state
    → All IsByte new
    → (tw_snapshot (length new) t
        >>= (λ t1. tw_snapshot_delta m (length new) (record t1 { cur_state = new }))
        >>= (λ out. tw_snapshot_restore m (length new) (out.0))
        >>= (λ t3. some t3.cur_state))
      ≡ some t.cur_state
unfolding tw_snapshot tw_snapshot_delta tw_snapshot_restore
tw_snapshot_restore-delta m new b0 t q r alloc h a b =
    let old : List ℕ = t.cur_state in
    let ds : List ℕ = differences new old in
    let n : length ds ≡ length new = length-differences new old h in
    let (zs, e0) = copy-room (length new) old b0 h r.first in
    let (ys, e1, l1, e2) = q.packs ds m.delta_sz (rw n r.bound) in
    let room : m.delta_sz ≤ length t.buffer1 = r.second in
    let (vs, e3) = copy-room (length ys) ys t.buffer1 refl (omega arith) in
    let e4 : prefix (length new) (ds ++ zs) ≡ some ds =
      subst (λ k. prefix k (ds ++ zs) ≡ some ds) n (prefix-append ds zs) in
    let e5 : m.decompress ys (length new) ≡ some ds =
      subst (λ k. m.decompress ys k ≡ some ds) n e2 in
    let (us, e6) = copy-room (length new) ds (ds ++ zs) n (omega (arith, length-append ds zs)) in
    rw
      (
        r.snapshot,
        e0,
        delta_loop-append new old zs h,
        e4,
        e1,
        e3,
        prefix-append ys vs,
        alloc (length ys) l1,
        e5,
        e6,
        restore_loop-append new old us h b a,
      )
      refl
