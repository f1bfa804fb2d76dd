-- ===== src/Kernel/Cancel.antt =====
-- `event_cancel` and `tw_event_rollback` of core/tw-event.c.
use Prim.Native.Nat.Ordering.{eq}
use ross.Prelude.{
  ℕ, zero, suc, ◌+◌, ◌-◌, Bool, true, false, none, some, List, [], ◌∷◌, ◌==◌, ◌&&◌, ◌||◌,
  if◌then◌else◌,
}
use ross.Event.{TwEventSig}
use ross.Event.Compare.{tw_event_sig_compare_ptr}
use ross.Queue.Tree.{Ptr, null}
use ross.Queue.Pq.{Run, ◌>>=◌, pe_pq, tw_pq_delete_any}
use ross.Kernel.Machine.{Machine}
use ross.Kernel.State.{
  World, write, set_buf, set_lp, set_kp, set_pe, owner_of, pe_event_q, kp_pevent_q, net_outq,
  net_asend, pe_sevent_q,
}
use ross.Kernel.Output.{tw_free_output_messages, free_delta, tw_event_free}
use ross.Kernel.Create.{tw_now}
use ross.Kernel.Send.{note_transit}

-- Events that have left for the network.
abbrev pub is_remote : ℕ → Bool
is_remote owner = owner == net_asend || owner == net_outq || owner == pe_sevent_q

unfoldable pub is_same_sig : TwEventSig → TwEventSig → Bool
is_same_sig a b = elim (tw_event_sig_compare_ptr a b) [ eq ↦ true | _ ↦ false ]

module _ {m : Machine} where
  -- `tw_pq_delete_any(pe->pq, e)`
  unfoldable pub dequeue_any : Ptr → World m → Run (World m)
  dequeue_any e w = tw_pq_delete_any w.pe.pq e >>= λ pq. some (set_pe w (record w.pe { pq = pq }))

  unfoldable pub local_cancel : Ptr → World m → World m
  local_cancel e w = record w {
    bufs = write w.bufs e (record (w.bufs e) { cancel_q = true });
    pe = record w.pe { cancel_q = e ∷ w.pe.cancel_q };
  }

  unfoldable pub net_cancel : Ptr → World m → World m
  net_cancel e w =
      let (pe, net) = m.net_cancel e (w.keys e) w.pe w.net in
      record w { net = net; pe = record pe { s_nsend_net_remote = pe.s_nsend_net_remote - 1 } }

  -- `event_cancel`, with one processing element in the process; `none` is a call of `tw_error`.
  unfoldable pub event_cancel : Ptr → World m → Run (World m)
  unfolding dequeue_any local_cancel net_cancel
  event_cancel e w =
      let owner = owner_of w e in
      if is_remote owner
      then some (note_transit e (net_cancel e w))
      else if owner == pe_pq
      then (dequeue_any e w >>= λ w'. some (tw_event_free e w'))
      else if owner == pe_event_q || owner == kp_pevent_q
      then some (note_transit e (local_cancel e w))
      else none

  -- `tw_rand_reverse_unif(lp->core_rng)`
  unfoldable pub reverse_core : ℕ → World m → Run (World m)
  reverse_core lp w = m.rand_reverse_unif (w.lps lp).core_rng >>= λ rng.
      some (set_lp w lp (record (w.lps lp) { core_rng = rng }))

  -- The loop over the events that the event caused.
  unfoldable pub cancel_caused : List Ptr → World m → Run (World m)
  unfolding reverse_core
  cancel_caused [] w = some w
  cancel_caused (e ∷ n) w = do
    w' ← reverse_core (w.bufs e).src_lp w
    w'' ← event_cancel e w'
    cancel_caused n w''

  -- The loop over `aborted_total`.
  unfoldable pub reverse_aborted : ℕ → ℕ → World m → Run (World m)
  unfolding reverse_core
  reverse_aborted lp zero w = some w
  reverse_aborted lp (suc n) w = reverse_core lp w >>= reverse_aborted lp n

  -- The call of `revent`, and the critical path.
  unfoldable pub reverse_event : Ptr → World m → World m
  reverse_event e w =
      let b = w.bufs e in
      let i = b.dest_lp in
      let lp = w.lps i in
      let (s, cv, msg) = m.revent i (tw_now w i) lp.cur_state b.cv b.message in
      record w {
        lps = write w.lps i (record lp { cur_state = s; critical_path = b.critical_path });
        bufs = write w.bufs e (record b { cv = cv; message = msg });
      }

  -- The end of a suspension. Only the three fields are reset; an empty lineage has length 0.
  unfoldable pub unsuspend : Ptr → World m → World m
  unsuspend e w =
      let i = (w.bufs e).dest_lp in
      set_lp w i (record (w.lps i) {
        suspend_flag = false;
        suspend_event = null;
        suspend_sig = record { recv_ts = 0; priority = 0; event_tiebreaker = [] };
        suspend_error_number = 0;
        suspend_do_orig_event_rc = false;
      })

  -- The branches on `suspend_flag`, as far as `jump_over_rc_event_handler`.
  unfoldable pub unprocess : Ptr → World m → World m
  unfolding reverse_event is_same_sig unsuspend
  unprocess e w =
      let lp = w.lps (w.bufs e).dest_lp in
      if lp.suspend_flag && lp.suspend_event == e && is_same_sig lp.suspend_sig (w.keys e).sig
      then (if lp.suspend_do_orig_event_rc then reverse_event e (unsuspend e w) else unsuspend e w)
      else if lp.suspend_flag
      then w
      else reverse_event e w

  -- `dest_lp->pe->cur_event = event; dest_lp->kp->last_sig = event->sig;`
  unfoldable pub rewind : Ptr → World m → World m
  rewind e w =
      let k = (w.lps (w.bufs e).dest_lp).kp in
      set_kp (set_pe w (record w.pe { cur_event = e })) k
        (record (w.kps k) { last_sig = (w.keys e).sig })

  -- `event->caused_by_me = NULL; kp->s_e_rbs++;`, with the count that the loop has run down.
  unfoldable pub finish : Ptr → World m → World m
  finish e w =
      let k = (w.lps (w.bufs e).dest_lp).kp in
      set_kp (set_buf w e (record (w.bufs e) { caused_by_me = []; aborted_total = 0 })) k
        (record (w.kps k) { s_e_rbs = (w.kps k).s_e_rbs + 1 })

  unfoldable pub tw_event_rollback : Ptr → World m → Run (World m)
  unfolding unprocess rewind finish
  tw_event_rollback e w =
      let caused = (w.bufs e).caused_by_me in
      let undone = free_delta e (unprocess e (rewind e (tw_free_output_messages e w))) in
      do
        w' ← cancel_caused caused undone
        w'' ← reverse_aborted (w'.bufs e).dest_lp (w'.bufs e).aborted_total w'
        some (finish e w'')
