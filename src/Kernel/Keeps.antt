-- ===== src/Kernel/Keeps.antt =====
-- What the steps of a send leave of the event that is processed.
use ross.Prelude.{ℕ, ◌≡◌, refl, ap, ◌∙◌, subst, ◌⊎◌, inl, inr, List, [], ◌∷◌, Has, arith}
use ross.Queue.Tree.{Ptr}
use ross.Kernel.Machine.{Machine}
use ross.Kernel.State.{TwOut, Pe, World, write}
use ross.Kernel.Output.{tw_kp_put_back_output_buffer, free_outs, tw_free_output_messages}
use ross.Kernel.Create.{Config, note_offset}

-- What the rollback of the event `e` reads is kept; `i` is the process that sends.
pub record Keeps {m : Machine} (e i : ℕ) (w w' : World m) : Type 0 where
  pub cur_event : w'.pe.cur_event ≡ w.pe.cur_event
  pub abort_event : w'.pe.abort_event ≡ w.pe.abort_event
  pub free : Has e w'.pe.free_q → Has e w.pe.free_q
  pub key : w'.keys e ≡ w.keys e
  pub dest_lp : (w'.bufs e).dest_lp ≡ (w.bufs e).dest_lp
  pub cv : (w'.bufs e).cv ≡ (w.bufs e).cv
  pub message : (w'.bufs e).message ≡ (w.bufs e).message
  pub caused : (w'.bufs e).caused_by_me ≡ (w.bufs e).caused_by_me
  pub aborted : (w'.bufs e).aborted_total ≡ (w.bufs e).aborted_total
  pub src_lp : (p : Ptr) → ((w'.bufs p).src_lp ≡ i) ⊎ ((w'.bufs p).src_lp ≡ (w.bufs p).src_lp)

module _ {m : Machine} where
  pub Keeps-trans : {e i : ℕ} {u v w : World m} → Keeps e i u v → Keeps e i v w → Keeps e i u w
  Keeps-trans a b = record {
    cur_event = b.cur_event ∙ a.cur_event;
    abort_event = b.abort_event ∙ a.abort_event;
    free = λ h. a.free (b.free h);
    key = b.key ∙ a.key;
    dest_lp = b.dest_lp ∙ a.dest_lp;
    cv = b.cv ∙ a.cv;
    message = b.message ∙ a.message;
    caused = b.caused ∙ a.caused;
    aborted = b.aborted ∙ a.aborted;
    src_lp = λ p. elim (b.src_lp p) [
      | inl q ↦ inl q
      | inr q ↦ elim (a.src_lp p) [ inl r ↦ inl (q ∙ r) | inr r ↦ inr (q ∙ r) ]
    ];
  }

  pub Keeps-refl : (e i : ℕ) (w : World m) → Keeps e i w w
  Keeps-refl e i w = record {
    cur_event = refl;
    abort_event = refl;
    free = λ h. h;
    key = refl;
    dest_lp = refl;
    cv = refl;
    message = refl;
    caused = refl;
    aborted = refl;
    src_lp = λ p. inr refl;
  }

  pub free_outs-bufs : (outs : List TwOut) (w : World m) → (free_outs outs w).bufs ≡ w.bufs
  unfolding free_outs tw_kp_put_back_output_buffer
  free_outs-bufs [] w = refl
  free_outs-bufs (o ∷ os) w = free_outs-bufs os (tw_kp_put_back_output_buffer o w)

  free_outs-pe : (outs : List TwOut) (w : World m) → (free_outs outs w).pe ≡ w.pe
  unfolding free_outs tw_kp_put_back_output_buffer
  free_outs-pe [] w = refl
  free_outs-pe (o ∷ os) w = free_outs-pe os (tw_kp_put_back_output_buffer o w)

  pub free_outs-keys : (outs : List TwOut) (w : World m) → (free_outs outs w).keys ≡ w.keys
  unfolding free_outs tw_kp_put_back_output_buffer
  free_outs-keys [] w = refl
  free_outs-keys (o ∷ os) w = free_outs-keys os (tw_kp_put_back_output_buffer o w)

  free_outs-lps : (outs : List TwOut) (w : World m) → (free_outs outs w).lps ≡ w.lps
  unfolding free_outs tw_kp_put_back_output_buffer
  free_outs-lps [] w = refl
  free_outs-lps (o ∷ os) w = free_outs-lps os (tw_kp_put_back_output_buffer o w)

  pub free_messages-lps : (x : Ptr) (w : World m) → (tw_free_output_messages x w).lps ≡ w.lps
  unfolding tw_free_output_messages
  free_messages-lps x w =
      free_outs-lps (w.bufs x).out_msgs
        (record w { bufs = write w.bufs x (record (w.bufs x) { out_msgs = [] }) })

  pub free_messages-Keeps : (e i x : ℕ) (w : World m) → Keeps e i w (tw_free_output_messages x w)
  unfolding tw_free_output_messages
  free_messages-Keeps e i x w =
      let outs = (w.bufs x).out_msgs in
      let u = record w { bufs = write w.bufs x (record (w.bufs x) { out_msgs = [] }) } in
      let b = free_outs-bufs outs u in
      let pe = free_outs-pe outs u in
      let k = free_outs-keys outs u in
      record {
        cur_event = ap (λ (z : Pe). z.cur_event) pe;
        abort_event = ap (λ (z : Pe). z.abort_event) pe;
        free = λ h. subst (λ (z : Pe). Has e z.free_q) pe h;
        key = ap (λ f. f e) k;
        dest_lp = ap (λ f. (f e).dest_lp) b ∙ ground arith;
        cv = ap (λ f. (f e).cv) b ∙ ground arith;
        message = ap (λ f. (f e).message) b ∙ ground arith;
        caused = ap (λ f. (f e).caused_by_me) b ∙ ground arith;
        aborted = ap (λ f. (f e).aborted_total) b ∙ ground arith;
        src_lp = λ p. inr (ap (λ f. (f p).src_lp) b ∙ ground arith);
      }

  pub note_offset-Keeps : (c : Config) (e i o : ℕ) (w : World m) → Keeps e i w (note_offset c o w)
  unfolding note_offset
  note_offset-Keeps c e i o w = ground (arith, Keeps-refl e i w)

module _ {m : Machine} where
  pub free_messages-critical_path :
      (e x : Ptr) (w : World m)
      → ((tw_free_output_messages x w).bufs e).critical_path ≡ (w.bufs e).critical_path
  unfolding tw_free_output_messages
  free_messages-critical_path e x w =
      let u = record w { bufs = write w.bufs x (record (w.bufs x) { out_msgs = [] }) } in
      ap (λ f. (f e).critical_path) (free_outs-bufs (w.bufs x).out_msgs u) ∙ ground arith

  pub free_messages-keys : (x : Ptr) (w : World m) → (tw_free_output_messages x w).keys ≡ w.keys
  unfolding tw_free_output_messages
  free_messages-keys x w =
      free_outs-keys (w.bufs x).out_msgs
        (record w { bufs = write w.bufs x (record (w.bufs x) { out_msgs = [] }) })
