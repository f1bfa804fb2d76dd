-- ===== src/Kernel/Output/Returned.antt =====
-- Where the output messages of an event go when it is rolled back or released.
use mathlib.Core.List.{append_assoc, reverse-cons}
use ross.Prelude.{
  ℕ, ◌≡◌, refl, sym, ap, ◌∙◌, Bool-cases, List, [], ◌∷◌, ◌++◌, reverse, ◌==◌, inl, inr,
  if◌then◌else◌, arith,
}
use ross.Queue.Tree.{Ptr}
use ross.Kernel.Machine.{Machine}
use ross.Kernel.State.{TwOut, World, write}
use ross.Kernel.Output.{put_back, tw_kp_put_back_output_buffer, free_outs, tw_free_output_messages}

-- The messages of one kernel process, in order.
abbrev pub owned : ℕ → List TwOut → List TwOut
owned k [] = []
owned k (o ∷ os) = if k == o.owner then o ∷ owned k os else owned k os

onto :
    (xs : List TwOut) (o : TwOut) (ys : List TwOut) → reverse xs ++ o ∷ ys ≡ reverse (o ∷ xs) ++ ys
onto xs o ys = sym (ap (λ z. z ++ ys) (reverse-cons o xs) ∙ append_assoc (reverse xs) (o ∷ []) ys)

put_back-cons : (o : TwOut) (os : List TwOut) → put_back o os ≡ o ∷ os
unfolding put_back
put_back-cons o [] = refl
put_back-cons o (x ∷ xs) = refl

module _ {m : Machine} (k : ℕ) where
  one_back :
      (o : TwOut) (w : World m)
      → ((tw_kp_put_back_output_buffer o w).kps k).output
        ≡ (if k == o.owner then o ∷ (w.kps k).output else (w.kps k).output)
  unfolding tw_kp_put_back_output_buffer
  one_back o w = ground (arith, put_back-cons o (w.kps o.owner).output)

  free_outs-owned :
      (outs : List TwOut) (w : World m)
      → ((free_outs outs w).kps k).output ≡ reverse (owned k outs) ++ (w.kps k).output
  unfolding free_outs
  free_outs-owned [] w = refl
  free_outs-owned (o ∷ os) w =
      let rest = free_outs-owned os (tw_kp_put_back_output_buffer o w) in
      elim (Bool-cases (k == o.owner)) [
        | inl h ↦
            rest
            ∙ ap (λ z. reverse (owned k os) ++ z) (one_back o w)
            ∙ rw h (onto (owned k os) o (w.kps k).output)
        | inr h ↦ rest ∙ ap (λ z. reverse (owned k os) ++ z) (one_back o w) ∙ rw h refl
      ]

  -- `tw_free_output_messages` gives every message of the event back to the pool of the kernel process
  -- that owns it, on top of what is there, the last one first.
  pub free_messages-owned :
      (e : Ptr) (w : World m)
      → ((tw_free_output_messages e w).kps k).output
        ≡ reverse (owned k (w.bufs e).out_msgs) ++ (w.kps k).output
  unfolding tw_free_output_messages
  free_messages-owned e w =
      free_outs-owned (w.bufs e).out_msgs
        (record w { bufs = write w.bufs e (record (w.bufs e) { out_msgs = [] }) })
