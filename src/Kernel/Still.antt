-- ===== src/Kernel/Still.antt =====
-- What the queues and the network leave of the event that is processed, when another is sent.
use Prim.Native.Nat.{Ordering}
use Prim.Native.Nat.Ordering.{lt, eq, gt}
use ross.Prelude.{ℕ, ◌+◌, ◌%◌, ◌^◌, ◌≡◌, ◌≢◌, refl, ◌∙◌, subst, inr, [], ◌∷◌, ◌++◌, Has, arith}
use ross.Event.Compare.{tw_event_sig_compare_ptr}
use ross.Queue.Pq.{tw_pq_enqueue}
use ross.Kernel.Machine.{Machine}
use ross.Kernel.State.{Pe, World, set_pe, set_buf, pe_event_q, net_outq}
use ross.Kernel.Create.{enqueue, less_than}
use ross.Kernel.Send.{set_owner_of, note_transit, send_local, by_order, send_late, send_remote}
use ross.Kernel.Sent.{Ensures, Ensures-bind, Ensures_any}
use ross.Kernel.Keeps.{Keeps, Keeps-trans}
use ross.Kernel.Draws.{Ensures-imp}

module _ {m : Machine} (e i : ℕ) where
  pe-Keeps :
      (w : World m) (pe : Pe)
      → pe.cur_event ≡ w.pe.cur_event
      → pe.abort_event ≡ w.pe.abort_event
      → pe.free_q ≡ w.pe.free_q
      → Keeps e i w (set_pe w pe)
  pe-Keeps w pe a b c = record {
    cur_event = a;
    abort_event = b;
    free = λ h. subst (Has e) c h;
    key = refl;
    dest_lp = refl;
    cv = refl;
    message = refl;
    caused = refl;
    aborted = refl;
    src_lp = λ p. inr refl;
  }

  net-Still :
      (w : World m) (net : m.Net) (pe : Pe)
      → pe.cur_event ≡ w.pe.cur_event
      → pe.abort_event ≡ w.pe.abort_event
      → pe.free_q ≡ w.pe.free_q
      → Keeps e i w (record w { net = net; pe = pe }) × (w.lps ≡ w.lps)
  net-Still w net pe a b c = (
    record {
      cur_event = a;
      abort_event = b;
      free = λ h. subst (Has e) c h;
      key = refl;
      dest_lp = refl;
      cv = refl;
      message = refl;
      caused = refl;
      aborted = refl;
      src_lp = λ p. inr refl;
    },
    refl,
  )

  -- What the queues and the network do with an event that is sent.
  abbrev pub Still : World m → World m → Type 0
  Still w w' = Keeps e i w w' × (w'.lps ≡ w.lps)

  Still-trans : {u v w : World m} → Still u v → Still v w → Still u w
  Still-trans a b = (Keeps-trans a.0 b.0, b.1 ∙ a.1)

  set_owner-Still : (x a : ℕ) (w : World m) → Still w (set_owner_of x a w)
  unfolding set_owner_of
  set_owner-Still x a w = (pe-Keeps w (set_owner_of x a w).pe refl refl refl, refl)

  pub note_transit-Still : (x : ℕ) (w : World m) → Still w (note_transit x w)
  unfolding note_transit
  note_transit-Still x w =
      (pe-Keeps w (note_transit x w).pe (ground arith) (ground arith) (ground arith), refl)

  enqueue-Still : (x : ℕ) (w : World m) → Ensures (Still w) (enqueue x w)
  unfolding enqueue
  enqueue-Still x w =
      Ensures-bind (λ pq. Unit {0}) (Still w) (tw_pq_enqueue (less_than w) w.pe.pq x) _
        (Ensures_any (tw_pq_enqueue (less_than w) w.pe.pq x))
        (λ pq h. (pe-Keeps w (record w.pe { pq = pq }) refl refl refl, refl))

  addressed-Still :
      (x d : ℕ) (w : World m) → x ≢ e → Still w (set_buf w x (record (w.bufs x) { dest_lp = d }))
  addressed-Still x d w n = (
    record {
      cur_event = refl;
      abort_event = refl;
      free = λ h. h;
      key = refl;
      dest_lp = ground arith;
      cv = ground arith;
      message = ground arith;
      caused = ground arith;
      aborted = ground arith;
      src_lp = λ p. inr (ground arith);
    },
    refl,
  )

  send_late-Still : (x : ℕ) (w : World m) → Still w (send_late x w)
  unfolding send_late
  send_late-Still x w =
      let q = set_owner_of x pe_event_q w in
      let pushed = record q.pe { event_q = q.pe.event_q ++ x ∷ [] } in
      Still-trans (set_owner-Still x pe_event_q w) (
        Still-trans (pe-Keeps q pushed refl refl refl, refl)
          (note_transit-Still x (set_pe q pushed)))

  by_order-Still : (o : Ordering) (x : ℕ) (w : World m) → Ensures (Still w) (by_order o x w)
  unfolding by_order
  by_order-Still gt x w = send_late-Still x w
  by_order-Still eq x w = enqueue-Still x w
  by_order-Still lt x w = enqueue-Still x w

  pub send_remote-Still : (x : ℕ) (w : World m) → Still w (send_remote x w)
  unfolding send_remote
  send_remote-Still x w =
      let q = set_owner_of x net_outq w in
      let (owner, net) = m.net_send x (q.keys x) (q.bufs x).message q.pe.pq.owner q.net in
      let v = record q {
        pe = record q.pe {
          pq = record q.pe.pq { owner = owner };
          s_nsend_net_remote = (q.pe.s_nsend_net_remote + 1) % 2 ^ 64;
        };
        net = net;
      } in
      Still-trans (set_owner-Still x net_outq w)
        (Still-trans (net-Still q v.net v.pe refl refl refl) (note_transit-Still x v))

  pub send_local-Still : (x : ℕ) (w : World m) → x ≢ e → Ensures (Still w) (send_local x w)
  unfolding send_local
  send_local-Still x w n =
      let dest = m.getlocal_lp (w.bufs x).dest_lp in
      let u = set_buf w x (record (w.bufs x) { dest_lp = dest }) in
      let o = tw_event_sig_compare_ptr (u.kps (u.lps dest).kp).last_sig (u.keys x).sig in
      Ensures-imp (Still u) (Still w) (by_order o x u)
        (λ v s. Still-trans (addressed-Still x dest w n) s) (by_order-Still o x u)
