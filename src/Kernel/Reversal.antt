-- ===== src/Kernel/Reversal.antt =====
-- The rollback of an event right after it was processed.
use ross.Prelude.{
  ℕ, ◌+◌, ◌%◌, ◌^◌, ◌<◌, ◌≡◌, ◌≢◌, refl, sym, ap, ◌∙◌, subst, inl, inr, false, Option, some, List,
  [], length, Has, if◌then◌else◌, arith,
}
use ross.Event.{TwEvent}
use ross.Queue.Tree.{Ptr}
use ross.Queue.Pq.{◌>>=◌}
use ross.Avl.{ross_max}
use ross.Kernel.Machine.{Machine, Handled}
use ross.Kernel.State.{Buffer, Lp, Kp, World, write}
use ross.Kernel.Create.{Config, tw_now}
use ross.Kernel.Send.{send_all}
use ross.Kernel.Cancel.{tw_event_rollback}
use ross.Kernel.Batch.{enter, handle, save_path, process}
use ross.Kernel.Sent.{Ensures, Ensures-bind}
use ross.Kernel.Sends.{Sends, send_all-Sends}
use ross.Kernel.Draws.{Ensures-imp, drawn, write_self, write-write, write_same}
use ross.Kernel.Calm.{Reverses}
use ross.Kernel.Undoing.{Undoes, reversed_lp, rollback-At}

module _ {m : Machine} (undoes : Undoes m) (law : Reverses m) (c : Config) (e : ℕ)
    (w0 : World m) where
  abbrev dest : ℕ
  dest = (w0.bufs e).dest_lp

  -- The event and the process as the handler finds them, and what the handler leaves.
  abbrev entered : Buffer m
  entered = record (w0.bufs e) { cv = m.zero_bitfield }

  abbrev now : ℕ
  now = tw_now (enter e w0) dest

  abbrev answer : Handled m.State m.Bitfield m.Message
  answer = m.event dest now ((enter e w0).lps dest).cur_state entered.cv entered.message

  abbrev handled_lp : Lp m
  handled_lp = record ((enter e w0).lps dest) {
    cur_state = answer.state;
    critical_path =
        (ross_max ((enter e w0).lps dest).critical_path entered.critical_path + 1) % 2 ^ 32;
  }

  abbrev handled_world : World m
  handled_world = record (enter e w0) {
    lps = write (enter e w0).lps dest handled_lp;
    bufs = write (enter e w0).bufs e (record entered { cv = answer.cv; message = answer.message });
  }

  enter-buf : (enter e w0).bufs e ≡ entered
  unfolding enter
  enter-buf = write_self w0.bufs e entered

  enter-now : now ≡ (w0.keys e).sig.recv_ts
  unfolding enter
  enter-now =
      let k = (w0.lps dest).kp in
      ap (λ (kp : Kp). kp.last_sig.recv_ts)
        (write_self w0.kps k (record (w0.kps k) { last_sig = (w0.keys e).sig }))

  process-plain :
      (w0.lps dest).suspend_flag ≡ false
      → process c e w0 ≡ (
          send_all c dest answer.requests handled_world >>= λ w'.
          some (save_path (w0.lps dest).critical_path e w'))
  unfolding process handle enter
  process-plain run =
      let w = enter e w0 in
      let after : Buffer m → Option (World m) = λ b.
        let lp = w.lps b.dest_lp in
        let h = m.event b.dest_lp (tw_now w b.dest_lp) lp.cur_state b.cv b.message in
        if lp.suspend_flag
        then some w
        else (send_all c b.dest_lp h.requests (record w {
          lps = write w.lps b.dest_lp (record lp {
            cur_state = h.state;
            critical_path = (ross_max lp.critical_path b.critical_path + 1) % 2 ^ 32;
          });
          bufs = write w.bufs e (record b { cv = h.cv; message = h.message });
        })
            >>= λ w'. some (save_path lp.critical_path e w')) in
      ap after enter-buf ∙ rw run refl

  handled-buf : handled_world.bufs e ≡ record entered { cv = answer.cv; message = answer.message }
  handled-buf =
      write_self (enter e w0).bufs e (record entered { cv = answer.cv; message = answer.message })

  -- What the reverse handler makes of a process that has the handler's answer.
  abbrev reverse_answer : Lp m → Lp m
  reverse_answer lp = record lp {
    cur_state = (m.revent dest now lp.cur_state answer.cv answer.message).0;
    critical_path = (w0.lps dest).critical_path;
  }

  -- After the handler and its sends, the reverse handler brings the process back, but for the draws.
  reversed-drawn :
      (n : ℕ) (w' : World m)
      → Sends e dest n handled_world w'
      → write w'.lps dest (reversed_lp e (save_path (w0.lps dest).critical_path e w') dest)
        ≡ write w0.lps dest (drawn m n (w0.lps dest))
  unfolding enter save_path reversed_lp
  reversed-drawn n w' s =
      let x = drawn m n handled_lp in
      let cp0 = (w0.lps dest).critical_path in
      let w1 = save_path cp0 e w' in
      let lps : w'.lps ≡ write w0.lps dest x =
        s.lps
        ∙ ap (λ (z : Lp m). write (write w0.lps dest handled_lp) dest (drawn m n z))
            (write_self w0.lps dest handled_lp)
        ∙ write-write w0.lps dest handled_lp x in
      let saved = write_self w'.bufs e (record (w'.bufs e) { critical_path = cp0 }) in
      let cv : (w1.bufs e).cv ≡ answer.cv =
        ap (λ (b : Buffer m). b.cv) saved ∙ s.cv ∙ ap (λ (b : Buffer m). b.cv) handled-buf in
      let msg : (w1.bufs e).message ≡ answer.message =
        ap (λ (b : Buffer m). b.message) saved
        ∙ s.message
        ∙ ap (λ (b : Buffer m). b.message) handled-buf in
      let cp : (w1.bufs e).critical_path ≡ cp0 = ap (λ (b : Buffer m). b.critical_path) saved in
      let t : (w'.keys e).sig.recv_ts ≡ now =
        ap (λ (k : TwEvent). k.sig.recv_ts) s.key ∙ sym enter-now in
      let reads : write w'.lps dest (reversed_lp e w1 dest)
          ≡ write (write w0.lps dest x) dest (reverse_answer (write w0.lps dest x dest)) =
        λ j. write (lps j) dest (record (lps j dest) {
          cur_state = (m.revent dest (t j) (lps j dest).cur_state (cv j) (msg j)).0;
          critical_path = cp j;
        }) in
      reads
      ∙ ap (λ (z : Lp m). write (write w0.lps dest x) dest (reverse_answer z))
          (write_self w0.lps dest x)
      ∙ write-write w0.lps dest x (reverse_answer x)
      ∙ ap (λ (z : m.State). write w0.lps dest (record x { cur_state = z; critical_path = cp0 }))
          (undoes dest now (w0.lps dest).cur_state entered.cv entered.message)

  rolled_back :
      (w' : World m)
      → (w0.lps dest).suspend_flag ≡ false
      → (w0.bufs e).caused_by_me ≡ []
      → (w0.bufs e).aborted_total ≡ 0
      → Sends e dest (length answer.requests) handled_world w'
      → Ensures
          (λ w2. (j : ℕ) → w2.lps j ≡ w0.lps j)
          (tw_event_rollback e (save_path (w0.lps dest).critical_path e w'))
  unfolding save_path enter
  rolled_back w' run none_caused none_aborted s =
      let n = length answer.requests in
      let w1 = save_path (w0.lps dest).critical_path e w' in
      let saved =
        write_self w'.bufs e (record (w'.bufs e) { critical_path = (w0.lps dest).critical_path }) in
      let caused : (w1.bufs e).caused_by_me ≡ (w'.bufs e).caused_by_me =
        ap (λ (b : Buffer m). b.caused_by_me) saved in
      let aborted : (w1.bufs e).aborted_total ≡ (w'.bufs e).aborted_total =
        ap (λ (b : Buffer m). b.aborted_total) saved in
      let old : (handled_world.bufs e).caused_by_me ≡ [] =
        ap (λ (b : Buffer m). b.caused_by_me) handled-buf ∙ none_caused in
      let count : n ≡ length (w1.bufs e).caused_by_me + (w1.bufs e).aborted_total = omega (
        arith,
        s.count,
        ap (λ (b : Buffer m). b.aborted_total) handled-buf,
        none_aborted,
        aborted,
        ap (λ (l : List Ptr). length l) old,
        ap (λ (l : List Ptr). length l) caused,
      ) in
      let d : (w1.bufs e).dest_lp ≡ dest =
        ap (λ (b : Buffer m). b.dest_lp) saved
        ∙ s.dest_lp
        ∙ ap (λ (b : Buffer m). b.dest_lp) handled-buf in
      let running : (w1.lps dest).suspend_flag ≡ false =
        (λ j. (s.lps j dest).suspend_flag)
        ∙ ap (λ (lp : Lp m). lp.suspend_flag)
            (write_self handled_world.lps dest (drawn m n (handled_world.lps dest)))
        ∙ ap (λ (lp : Lp m). lp.suspend_flag) (write_self (enter e w0).lps dest handled_lp)
        ∙ run in
      let same : (p : Ptr) → (w1.bufs p).src_lp ≡ (w'.bufs p).src_lp = λ p. ground arith in
      let src : (p : Ptr) → Has p (w1.bufs e).caused_by_me → (w1.bufs p).src_lp ≡ dest = λ p h.
        elim (s.blame p (subst (Has p) caused h)) [
          | inl q ↦ same p ∙ q
          | inr z ↦ absurd (subst (Has p) old z)
        ] in
      Ensures-imp _ _ (tw_event_rollback e w1)
        (λ w2 at j. ap (λ (g : ℕ → Lp m). g j) (at ∙ write_same w0.lps dest))
        (rollback-At e law w0.lps (w0.lps dest) dest w1 d running src
          (reversed-drawn n w' s ∙ ap (λ k. write w0.lps dest (drawn m k (w0.lps dest))) count))

  -- For a machine whose reverse handlers undo its handlers and whose generator can be reversed: let
  -- the process of the event `e` not be suspended, `e` have caused nothing yet and be neither the
  -- abort event nor free, and its handler make less than 2 ^ 64 requests. If the event is processed,
  -- with all that its handler sends, and then rolled back, every logical process is as before, with
  -- its state, its generator of tie breakers and its critical path.
  pub process-rollback :
      {w1 w2 : World m}
      → (w0.lps dest).suspend_flag ≡ false
      → (w0.bufs e).caused_by_me ≡ []
      → (w0.bufs e).aborted_total ≡ 0
      → w0.pe.abort_event ≢ e
      → ¬ Has e w0.pe.free_q
      → length answer.requests < 2 ^ 64
      → process c e w0 ≡ some w1
      → tw_event_rollback e w1 ≡ some w2
      → (j : ℕ) → w2.lps j ≡ w0.lps j
  unfolding enter
  process-rollback {w1} {w2} run none_caused none_aborted ab fr room p r =
      let old : (handled_world.bufs e).caused_by_me ≡ [] =
        ap (λ (b : Buffer m). b.caused_by_me) handled-buf ∙ none_caused in
      let small : (handled_world.bufs e).aborted_total
            + length (handled_world.bufs e).caused_by_me
            + length answer.requests
          < 2 ^ 64 =
        omega (
          arith,
          room,
          ap (λ (b : Buffer m). b.aborted_total) handled-buf,
          none_aborted,
          ap (λ (l : List Ptr). length l) old,
        ) in
      let sent = send_all-Sends e dest c answer.requests handled_world refl ab fr small in
      let whole =
        Ensures-bind (Sends e dest (length answer.requests) handled_world)
          (λ w. Ensures (λ v. (j : ℕ) → v.lps j ≡ w0.lps j) (tw_event_rollback e w))
          (send_all c dest answer.requests handled_world)
          (λ w'. some (save_path (w0.lps dest).critical_path e w')) sent
          (λ w' s. rolled_back w' run none_caused none_aborted s) in
      let ran : (send_all c dest answer.requests handled_world >>= λ w'.
      some (save_path (w0.lps dest).critical_path e w'))
          ≡ some w1 =
        sym (process-plain run) ∙ p in
      subst (Ensures (λ v. (j : ℕ) → v.lps j ≡ w0.lps j)) r (
        subst (Ensures (λ w. Ensures (λ v. (j : ℕ) → v.lps j ≡ w0.lps j) (tw_event_rollback e w)))
          ran whole)
