-- ===== src/Kernel/Undoing.antt =====
-- `tw_event_rollback` on the logical processes.
use ross.Prelude.{ℕ, ◌+◌, ◌≡◌, refl, ap, ap₂, ◌∙◌, inl, inr, false, some, length, Has, arith}
use ross.Queue.Tree.{Ptr}
use ross.Queue.Pq.{◌>>=◌}
use ross.Kernel.Machine.{Machine}
use ross.Kernel.State.{Lp, Kp, World, write}
use ross.Kernel.Output.{tw_free_output_messages, free_delta}
use ross.Kernel.Create.{tw_now}
use ross.Kernel.Cancel.{
  reverse_event, unprocess, rewind, finish, cancel_caused, reverse_aborted, tw_event_rollback,
}
use ross.Kernel.Sent.{Ensures, Ensures-bind}
use ross.Kernel.Keeps.{
  free_messages-Keeps, free_messages-lps, free_messages-critical_path, free_messages-keys,
}
use ross.Kernel.Draws.{drawn, write_self}
use ross.Kernel.Calm.{Reverses, At, free_delta-Calm, cancel_caused-At, reverse_aborted-At}

-- The reverse handler restores the state that the handler changed, from what the handler left in the
-- bit field and in the message.
abbrev pub Undoes : Machine → Type 0
Undoes m =
    (lp now : ℕ) (s : m.State) (cv : m.Bitfield) (msg : m.Message)
    → (m.revent lp now (m.event lp now s cv msg).state (m.event lp now s cv msg).cv
        (m.event lp now s cv msg).message).0
      ≡ s

module _ {m : Machine} (e : ℕ) where
  unprocess-plain :
      (w : World m)
      → (w.lps (w.bufs e).dest_lp).suspend_flag ≡ false
      → unprocess e w ≡ reverse_event e w
  unfolding unprocess
  unprocess-plain w h = rw h refl

  -- What stands before the loop over the caused events, for a process that is not suspended.
  abbrev undone : World m → World m
  undone w = free_delta e (reverse_event e (rewind e (tw_free_output_messages e w)))

  rollback-undone :
      (w : World m)
      → (w.lps (w.bufs e).dest_lp).suspend_flag ≡ false
      → tw_event_rollback e w ≡ (
          cancel_caused (w.bufs e).caused_by_me (undone w) >>= λ w'.
          reverse_aborted (w'.bufs e).dest_lp (w'.bufs e).aborted_total w' >>= λ w''.
          some (finish e w''))
  unfolding tw_event_rollback rewind
  rollback-undone w h =
      let u = tw_free_output_messages e w in
      let k = free_messages-Keeps e 0 e w in
      let running : (u.lps (u.bufs e).dest_lp).suspend_flag ≡ false =
        ap₂ (λ (f : ℕ → Lp m) (i : ℕ). (f i).suspend_flag) (free_messages-lps e w) k.dest_lp ∙ h in
      ap
        (λ z. cancel_caused (w.bufs e).caused_by_me (free_delta e z) >>= λ w'.
          reverse_aborted (w'.bufs e).dest_lp (w'.bufs e).aborted_total w' >>= λ w''.
          some (finish e w''))
        (unprocess-plain (rewind e u) running)

  -- The process after the call of the reverse handler.
  unfoldable pub reversed_lp : World m → ℕ → Lp m
  reversed_lp w i =
      let b = w.bufs e in
      record (w.lps i) {
        cur_state = (m.revent i (w.keys e).sig.recv_ts (w.lps i).cur_state b.cv b.message).0;
        critical_path = b.critical_path;
      }

  undone-lps :
      (i : ℕ) (w : World m)
      → (w.bufs e).dest_lp ≡ i
      → (undone w).lps ≡ write w.lps i (reversed_lp w i)
  unfolding reverse_event rewind reversed_lp
  undone-lps i w d =
      let u = tw_free_output_messages e w in
      let v = rewind e u in
      let k = free_messages-Keeps e 0 e w in
      let i' = (u.bufs e).dest_lp in
      let now : tw_now v i' ≡ (w.keys e).sig.recv_ts =
        ap (λ (kp : Kp). kp.last_sig.recv_ts)
          (write_self u.kps (u.lps i').kp
            (record (u.kps (u.lps i').kp) { last_sig = (u.keys e).sig }))
        ∙ ap (λ ks. (ks e).sig.recv_ts) (free_messages-keys e w) in
      let lps = free_messages-lps e w in
      let dest = k.dest_lp ∙ d in
      let path = free_messages-critical_path e e w in
      (free_delta-Calm e 0 e (reverse_event e v)).lps ∙ λ j.
      write (lps j) (dest j) (record (lps j (dest j)) {
        cur_state = (m.revent (dest j) (now j) (lps j (dest j)).cur_state (k.cv j) (k.message j)).0;
        critical_path = path j;
      })

  undone-bufs :
      (i : ℕ) (w : World m)
      → (((undone w).bufs e).dest_lp ≡ (w.bufs e).dest_lp)
        × (((undone w).bufs e).aborted_total ≡ (w.bufs e).aborted_total)
        × ((p : Ptr) → (w.bufs p).src_lp ≡ i → ((undone w).bufs p).src_lp ≡ i)
  unfolding reverse_event rewind
  undone-bufs i w =
      let u = tw_free_output_messages e w in
      let v = rewind e u in
      let k = free_messages-Keeps e i e w in
      let f = free_delta-Calm e i e (reverse_event e v) in
      let dest : ((reverse_event e v).bufs e).dest_lp ≡ (u.bufs e).dest_lp = ground arith in
      let aborted : ((reverse_event e v).bufs e).aborted_total ≡ (u.bufs e).aborted_total =
        ground arith in
      let src : (p : Ptr) → ((reverse_event e v).bufs p).src_lp ≡ (u.bufs p).src_lp =
        λ p. ground arith in
      (
        f.dest_lp ∙ dest ∙ k.dest_lp,
        f.aborted ∙ aborted ∙ k.aborted,
        λ p h. elim (f.src_lp p) [
          | inl q ↦ q
          | inr q ↦ elim (k.src_lp p) [ inl r ↦ q ∙ src p ∙ r | inr r ↦ q ∙ src p ∙ r ∙ h ]
        ],
      )

  -- From the process `lp` after `n` draws, of which the event's counts tell.
  pub rollback-At :
      Reverses m
      → (f : ℕ → Lp m) (lp : Lp m) (i : ℕ) (w : World m) → (w.bufs e).dest_lp ≡ i
      → (w.lps i).suspend_flag ≡ false
      → ((p : Ptr) → Has p (w.bufs e).caused_by_me → (w.bufs p).src_lp ≡ i)
      → write w.lps i (reversed_lp w i)
        ≡ write f i (drawn m (length (w.bufs e).caused_by_me + (w.bufs e).aborted_total) lp)
      → Ensures (At e i f lp 0) (tw_event_rollback e w)
  unfolding finish
  rollback-At law f lp i w d run src at =
      let b = undone-bufs i w in
      let cs = (w.bufs e).caused_by_me in
      let a = (w.bufs e).aborted_total in
      let start : At e i f lp (length cs + a) (undone w) = undone-lps i w d ∙ at in
      rw (rollback-undone w (ap (λ j. (w.lps j).suspend_flag) d ∙ run)) (
        Ensures-bind _ (At e i f lp 0) (cancel_caused cs (undone w)) _
          (cancel_caused-At e i law f lp a cs (undone w) start (λ p h. b.2 p (src p h)))
          (λ v t.
            let dest : (v.bufs e).dest_lp ≡ i = t.1 ∙ b.0 ∙ d in
            let count : (v.bufs e).aborted_total ≡ a = t.2 ∙ b.1 in
            rw (dest, count)
              (Ensures-bind (At e i f lp 0) (At e i f lp 0) (reverse_aborted i a v) _
                (reverse_aborted-At e i law f lp a v t.0) (λ z h. h))))
