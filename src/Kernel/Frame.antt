-- ===== src/Kernel/Frame.antt =====
-- What the steps of a rollback leave alone.
use ross.Prelude.{
  ℕ, zero, suc, ◌≡◌, refl, ◌∙◌, Bool-cases, some, List, [], ◌∷◌, ◌==◌, inl, inr, arith,
}
use ross.Queue.Tree.{Ptr, null}
use ross.Kernel.Machine.{Machine}
use ross.Kernel.State.{TwOut, Kp, Buffer, World, write}
use ross.Kernel.Output.{
  tw_kp_put_back_output_buffer, free_outs, tw_free_output_messages, free_delta,
}
use ross.Kernel.Send.{note_transit}
use ross.Kernel.Cancel.{
  local_cancel, reverse_core, reverse_aborted, reverse_event, unsuspend, unprocess, rewind,
}

abbrev pub caused_of : {m : Machine} → World m → Ptr → List Ptr
caused_of w p = (w.bufs p).caused_by_me

abbrev pub processed_of : {m : Machine} → World m → ℕ → List Ptr
processed_of w k = (w.kps k).pevent_q

-- The keys, the global time, the processed events and the causes are the same.
pub record Frame {m : Machine} (w w' : World m) : Type 0 where
  pub keys : w'.keys ≡ w.keys
  pub gvt_sig : w'.pe.gvt_sig ≡ w.pe.gvt_sig
  pub caused : (p : Ptr) → caused_of w' p ≡ caused_of w p
  pub processed : (k : ℕ) → processed_of w' k ≡ processed_of w k

-- So is the event queue.
pub record Same {m : Machine} (w w' : World m) : Type 0 where
  pub frame : Frame w w'
  pub pq : w'.pe.pq ≡ w.pe.pq

-- The generator can always step back.
abbrev pub StepsBack : Machine → Type 0
StepsBack m = (g : m.Rng) → (g' : m.Rng) × (m.rand_reverse_unif g ≡ some g')

module _ {m : Machine} where
  pub Frame-trans : {u v w : World m} → Frame u v → Frame v w → Frame u w
  Frame-trans a b = record {
    keys = b.keys ∙ a.keys;
    gvt_sig = b.gvt_sig ∙ a.gvt_sig;
    caused = λ p. b.caused p ∙ a.caused p;
    processed = λ k. b.processed k ∙ a.processed k;
  }

  pub Same-trans : {u v w : World m} → Same u v → Same v w → Same u w
  Same-trans a b = record { frame = Frame-trans a.frame b.frame; pq = b.pq ∙ a.pq }

  pub Frame-refl : (w : World m) → Frame w w
  Frame-refl w = record { keys = refl; gvt_sig = refl; caused = λ p. refl; processed = λ k. refl }

  pub Same-refl : (w : World m) → Same w w
  Same-refl w = record { frame = Frame-refl w; pq = refl }

  put_back-Same : (out : TwOut) (w : World m) → Same w (tw_kp_put_back_output_buffer out w)
  unfolding tw_kp_put_back_output_buffer
  put_back-Same out w = record {
    frame = record {
      keys = refl;
      gvt_sig = refl;
      caused = λ p. refl;
      processed = λ k. ground arith;
    };
    pq = refl;
  }

  free_outs-Same : (outs : List TwOut) (w : World m) → Same w (free_outs outs w)
  unfolding free_outs
  free_outs-Same [] w = Same-refl w
  free_outs-Same (o ∷ os) w =
      Same-trans (put_back-Same o w) (free_outs-Same os (tw_kp_put_back_output_buffer o w))

  -- A write to one buffer that keeps its causes.
  pub set_buf-Same :
      (w : World m) (e : Ptr) (b : Buffer m)
      → b.caused_by_me ≡ caused_of w e
      → Same w (record w { bufs = write w.bufs e b })
  set_buf-Same w e b h = record {
    frame = record {
      keys = refl;
      gvt_sig = refl;
      caused = λ p. ground arith;
      processed = λ k. refl;
    };
    pq = refl;
  }

  -- A write to one kernel process that keeps its processed events.
  pub set_kp-Same :
      (w : World m) (k : ℕ) (kp : Kp)
      → kp.pevent_q ≡ processed_of w k
      → Same w (record w { kps = write w.kps k kp })
  set_kp-Same w k kp h = record {
    frame = record {
      keys = refl;
      gvt_sig = refl;
      caused = λ p. refl;
      processed = λ k. ground arith;
    };
    pq = refl;
  }

  pub free_messages-Same : (e : Ptr) (w : World m) → Same w (tw_free_output_messages e w)
  unfolding tw_free_output_messages
  free_messages-Same e w =
      let b = record (w.bufs e) { out_msgs = [] } in
      Same-trans (set_buf-Same w e b refl)
        (free_outs-Same (w.bufs e).out_msgs (record w { bufs = write w.bufs e b }))

  pub free_delta-Same : (e : Ptr) (w : World m) → Same w (free_delta e w)
  unfolding free_delta
  free_delta-Same e w = elim (Bool-cases ((w.bufs e).delta_buddy == null)) [
    | inl h ↦ rw h (Same-refl w)
    | inr h ↦ rw h (record {
      frame = record {
        keys = refl;
        gvt_sig = refl;
        caused = λ p. ground arith;
        processed = λ k. refl;
      };
      pq = refl;
    })
  ]

  pub note_transit-Same : (e : Ptr) (w : World m) → Same w (note_transit e w)
  unfolding note_transit
  note_transit-Same e w = record {
    frame = record {
      keys = refl;
      gvt_sig = ground arith;
      caused = λ p. refl;
      processed = λ k. refl;
    };
    pq = ground arith;
  }

  pub local_cancel-Same : (e : Ptr) (w : World m) → Same w (local_cancel e w)
  unfolding local_cancel
  local_cancel-Same e w = record {
    frame = record {
      keys = refl;
      gvt_sig = refl;
      caused = λ p. ground arith;
      processed = λ k. refl;
    };
    pq = refl;
  }

  reverse_event-Same : (e : Ptr) (w : World m) → Same w (reverse_event e w)
  unfolding reverse_event
  reverse_event-Same e w = record {
    frame = record {
      keys = refl;
      gvt_sig = refl;
      caused = λ p. ground arith;
      processed = λ k. refl;
    };
    pq = refl;
  }

  unsuspend-Same : (e : Ptr) (w : World m) → Same w (unsuspend e w)
  unfolding unsuspend
  unsuspend-Same e w = record {
    frame = record { keys = refl; gvt_sig = refl; caused = λ p. refl; processed = λ k. refl };
    pq = refl;
  }

  pub unprocess-Same : (e : Ptr) (w : World m) → Same w (unprocess e w)
  unfolding unprocess
  unprocess-Same e w = ground (
    arith,
    Same-refl w,
    unsuspend-Same e w,
    reverse_event-Same e w,
    Same-trans (unsuspend-Same e w) (reverse_event-Same e (unsuspend e w)),
  )

  pub rewind-Same : (e : Ptr) (w : World m) → Same w (rewind e w)
  unfolding rewind
  rewind-Same e w = record {
    frame = record {
      keys = refl;
      gvt_sig = refl;
      caused = λ p. refl;
      processed = λ k. ground arith;
    };
    pq = refl;
  }

  pub reverse_core-Same :
      StepsBack m
      → (lp : ℕ) (w : World m) → (w' : World m) × (reverse_core lp w ≡ some w') × Same w w'
  unfolding reverse_core
  reverse_core-Same back lp w =
      let (g, e) = back (w.lps lp).core_rng in
      (
        record w { lps = write w.lps lp (record (w.lps lp) { core_rng = g }) },
        rw e refl,
        record {
          frame = record { keys = refl; gvt_sig = refl; caused = λ p. refl; processed = λ k. refl };
          pq = refl;
        },
      )

  pub reverse_aborted-Same :
      StepsBack m
      → (lp n : ℕ) (w : World m) → (w' : World m) × (reverse_aborted lp n w ≡ some w') × Same w w'
  unfolding reverse_aborted
  reverse_aborted-Same back lp zero w = (w, refl, Same-refl w)
  reverse_aborted-Same back lp (suc n) w =
      let (v, e, s) = reverse_core-Same back lp w in
      let (w', e', s') = reverse_aborted-Same back lp n v in (w', rw e e', Same-trans s s')
