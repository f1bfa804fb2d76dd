-- ===== src/Kernel/Send.antt =====
-- `tw_event_send` of core/tw-event.c.
use Prim.Native.Nat.{Ordering}
use Prim.Native.Nat.Ordering.{lt, eq, gt}
use ross.Prelude.{
  ℕ, ◌+◌, ◌%◌, ◌^◌, Bool, true, false, none, some, List, [], ◌∷◌, ◌++◌, ◌==◌, ltb, if◌then◌else◌,
}
use ross.Event.Compare.{tw_event_sig_compare_ptr}
use ross.Queue.Tree.{Ptr}
use ross.Queue.Pq.{Run, ◌>>=◌, set_owner}
use ross.Kernel.Machine.{Machine, Request}
use ross.Kernel.State.{TwOut, Pe, World, write, set_buf, set_pe, pe_event_q, net_outq}
use ross.Kernel.Create.{conservative, Config, tw_now, enqueue, tw_event_new_user_prio}

unfoldable pub has_output : List TwOut → Bool
has_output [] = false
has_output (o ∷ os) = true

module _ {m : Machine} where
  unfoldable pub set_owner_of : Ptr → ℕ → World m → World m
  set_owner_of e a w =
      set_pe w (record w.pe { pq = record w.pe.pq { owner = set_owner w.pe.pq.owner e a } })

  -- `link_causality(nev, cev)`
  unfoldable pub link_causality : Ptr → Ptr → World m → World m
  link_causality nev cev w =
      set_buf w cev (record (w.bufs cev) { caused_by_me = nev ∷ (w.bufs cev).caused_by_me })

  -- The update of `trans_msg_sig` while a round of global virtual time is in progress.
  unfoldable pub note_transit : Ptr → World m → World m
  note_transit e w =
      let sig = (w.keys e).sig in
      let lower : Pe = elim (tw_event_sig_compare_ptr w.pe.trans_msg_sig sig) [
        | lt ↦ w.pe
        | _ ↦ record w.pe { trans_msg_sig = sig }
      ] in
      set_pe w (if w.pe.gvt_inprogress then lower else w.pe)

  -- `event == send_pe->abort_event`
  unfoldable pub send_abort : Config → Ptr → World m → World m
  send_abort c e w =
      let cur = w.bufs w.pe.cur_event in
      record w {
        pe = record w.pe {
          cev_abort = if ltb (w.keys e).recv_ts c.ts_end then true else w.pe.cev_abort;
        };
        bufs =
            write w.bufs w.pe.cur_event
              (record cur { aborted_total = (cur.aborted_total + 1) % 2 ^ 64 });
      }

  -- The branch that puts the event into `event_q`.
  unfoldable pub send_late : Ptr → World m → World m
  unfolding set_owner_of note_transit
  send_late e w =
      let q = set_owner_of e pe_event_q w in
      note_transit e (set_pe q (record q.pe { event_q = q.pe.event_q ++ e ∷ [] }))

  -- The branch for an event of this process: `gt` is an event in the past of its kernel process.
  unfoldable pub by_order : Ordering → Ptr → World m → Run (World m)
  unfolding send_late
  by_order gt e w = some (send_late e w)
  by_order eq e w = enqueue e w
  by_order lt e w = enqueue e w

  unfoldable pub send_local : Ptr → World m → Run (World m)
  unfolding by_order
  send_local e w0 =
      let b = w0.bufs e in
      let dest = m.getlocal_lp b.dest_lp in
      let w = set_buf w0 e (record b { dest_lp = dest }) in
      by_order (tw_event_sig_compare_ptr (w.kps (w.lps dest).kp).last_sig (w.keys e).sig) e w

  unfoldable pub send_remote : Ptr → World m → World m
  unfolding set_owner_of note_transit
  send_remote e w =
      let q = set_owner_of e net_outq w in
      let (owner, net) = m.net_send e (q.keys e) (q.bufs e).message q.pe.pq.owner q.net in
      note_transit e (record q {
        pe = record q.pe {
          pq = record q.pe.pq { owner = owner };
          s_nsend_net_remote = (q.pe.s_nsend_net_remote + 1) % 2 ^ 64;
        };
        net = net;
      })

  -- The number of the event, its sender and its cause.
  unfoldable pub label : Ptr → World m → World m
  unfolding link_causality
  label e w =
      let n = (w.pe.seq_num + 1) % 2 ^ 32 in
      link_causality e w.pe.cur_event (record w {
        pe = record w.pe { seq_num = n };
        keys =
            write w.keys e
              (record (w.keys e) { event_id = n; send_lp = (w.lps (w.bufs e).src_lp).gid });
      })

  -- A lookahead violation, in a conservative run.
  unfoldable pub violates : Config → Ptr → World m → Bool
  violates c e w = elim c.protocol [
    | conservative ↦ c.too_early (tw_now w (w.bufs e).src_lp) (w.keys e).recv_ts
    | _ ↦ false
  ]

  unfoldable pub tw_event_send : Config → Ptr → World m → Run (World m)
  unfolding send_abort send_local send_remote label violates has_output
  tw_event_send c e w =
      let labelled = label e w in
      let dest_peid = m.lp_map (w.bufs e).dest_lp in
      if e == w.pe.abort_event
      then some (send_abort c e w)
      else if violates c e w
      then none
      else if has_output (w.bufs e).out_msgs
      then none
      else if dest_peid == c.mynode
      then send_local e labelled
      else some (send_remote e labelled)

  -- The requests of one handler.
  unfoldable pub send_all : Config → ℕ → List (Request m.Message) → World m → Run (World m)
  send_all c sender [] w = some w
  send_all c sender (r ∷ rs) w = do
    (e, w') ← tw_event_new_user_prio c sender r w
    w'' ← tw_event_send c e w'
    send_all c sender rs w''
