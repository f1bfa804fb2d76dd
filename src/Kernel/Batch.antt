-- ===== src/Kernel/Batch.antt =====
-- `tw_sched_batch` of core/tw-sched.c.
use Prim.Native.Nat.Ordering.{gt}
use ross.Prelude.{
  ℕ, zero, suc, ◌+◌, ◌%◌, ◌^◌, Bool, true, false, Option, none, some, List, [], ◌∷◌, length, ◌==◌,
  leb, if◌then◌else◌,
}
use ross.Event.{TwEventSig}
use ross.Event.Compare.{tw_event_sig_compare_ptr}
use ross.Queue.Tree.{Ptr, null}
use ross.Queue.Pq.{Run, ◌>>=◌, tw_pq_dequeue}
use ross.Avl.{ross_max}
use ross.Kernel.Machine.{Machine, Handled}
use ross.Kernel.State.{World, set_buf, set_lp, set_kp, set_pe, kp_pevent_q}
use ross.Kernel.Create.{Config, tw_now, enqueue}
use ross.Kernel.Send.{set_owner_of, send_all}
use ross.Kernel.Cancel.{tw_event_rollback}
use ross.Kernel.Sched.{kp_of}

-- The constants of the loop: `g_tw_gvt_threshold`, the trigger of `g_tw_gvt_hook` where it is of a
-- kind that the loop tests, and `g_tw_max_sig`.
pub record Batch : Type 0 where
  pub config : Config
  pub gvt_threshold : ℕ
  pub hook_at : Option TwEventSig
  pub max_sig : TwEventSig

-- The variables of the loop: the process, `no_free_event_buffers`, and how often
-- `tw_gvt_force_update` was called.
pub record Loop (m : Machine) : Type 0 where
  pub world : World m
  pub no_free_event_buffers : ℕ
  pub forced : ℕ

-- `break`, or another round.
pub data Next (m : Machine) : Type 0 where
  stop : Loop m → Next m
  again : Loop m → Next m

max_alloc_fail_count : ℕ
max_alloc_fail_count = 20

-- `tw_eventq_peek(&kp->pevent_q)`: the tail, the oldest processed event; `null` if there is none.
unfoldable pub oldest : List Ptr → Ptr
oldest [] = null
oldest (x ∷ []) = x
oldest (x ∷ y ∷ ys) = oldest (y ∷ ys)

module _ {m : Machine} where
  -- `cur_event`, `last_sig` and the bit field, before the handler.
  unfoldable pub enter : Ptr → World m → World m
  enter e w0 =
      let k = kp_of w0 e in
      let w = set_pe w0 (record w0.pe { cur_event = e }) in
      set_buf (set_kp w k (record (w.kps k) { last_sig = (w.keys e).sig })) e
        (record (w.bufs e) { cv = m.zero_bitfield })

  -- What the handler answers.
  abbrev pub handled : Ptr → World m → Handled m.State m.Bitfield m.Message
  handled e w =
      let b = w.bufs e in
      m.event b.dest_lp (tw_now w b.dest_lp) (w.lps b.dest_lp).cur_state b.cv b.message

  -- The writes of the handler, and the critical path of the process.
  unfoldable pub handle : Ptr → World m → World m
  handle e w =
      let b = w.bufs e in
      let lp = w.lps b.dest_lp in
      let h = handled e w in
      set_buf
        (set_lp w b.dest_lp (record lp {
          cur_state = h.state;
          critical_path = (ross_max lp.critical_path b.critical_path + 1) % 2 ^ 32;
        }))
        e (record b { cv = h.cv; message = h.message })

  -- The event's own critical path becomes that of the process before it.
  unfoldable pub save_path : ℕ → Ptr → World m → World m
  save_path prev e w = set_buf w e (record (w.bufs e) { critical_path = prev })

  -- `if( !(clp->suspend_flag) )`
  unfoldable pub process : Config → Ptr → World m → Run (World m)
  unfolding enter handle save_path
  process c e w0 =
      let w = enter e w0 in
      let i = (w.bufs e).dest_lp in
      if (w.lps i).suspend_flag
      then some w
      else (send_all c i (handled e w).requests (handle e w) >>= λ w'.
          some (save_path (w.lps i).critical_path e w'))

  unfoldable pub count_processed : Ptr → World m → World m
  count_processed e w =
      let k = kp_of w e in
      set_kp w k (record (w.kps k) { s_nevent_processed = (w.kps k).s_nevent_processed + 1 })

  -- The branch for `me->cev_abort`.
  unfoldable pub abort : Ptr → World m → Run (World m)
  unfolding oldest
  abort e w0 =
      let k = kp_of w0 e in
      do
        w ← tw_event_rollback e (
            set_pe w0
              (record w0.pe { s_nevent_abort = w0.pe.s_nevent_abort + 1; cev_abort = false }))
        w' ← enqueue e w
        let old = oldest (w'.kps k).pevent_q
        let sig = if old == null then w'.pe.gvt_sig else (w'.keys old).sig
        some (set_kp w' k (record (w'.kps k) { last_sig = sig }))

  -- The event enters the list of processed events.
  unfoldable pub commit : Ptr → World m → World m
  unfolding set_owner_of
  commit e w0 =
      let w = set_owner_of e kp_pevent_q w0 in
      let k = kp_of w e in set_kp w k (record (w.kps k) { pevent_q = e ∷ (w.kps k).pevent_q })

  unfoldable pub hook_due : Batch → World m → Bool
  hook_due b w =
      let first = if w.pe.pq.least == null then b.max_sig else (w.keys w.pe.pq.least).sig in
      elim b.hook_at [
        | none ↦ false
        | some at ↦ elim (tw_event_sig_compare_ptr at first) [ gt ↦ false | _ ↦ true ]
      ]

  abbrev pub force_update : Loop m → Loop m
  force_update l = record l { forced = l.forced + 1 }

  -- The processing of the event that was taken from the queue.
  unfoldable pub run_event : Batch → Loop m → Ptr → World m → Run (Next m)
  unfolding process count_processed abort commit
  run_event b l e w0 = do
    w1 ← process b.config e w0
    let w = count_processed e w1
    let aborted : Run (Next m) =
        abort e w >>= λ w'. some (stop (force_update (record l { world = w' })))
    if w.pe.cev_abort then aborted else some (again (record l { world = commit e w }))

  -- One round.
  unfoldable pub batch_one : Batch → Loop m → Run (Next m)
  unfolding hook_due run_event max_alloc_fail_count
  batch_one b l0 =
      let w = l0.world in
      let starved = record l0 { no_free_event_buffers = l0.no_free_event_buffers + 1 } in
      let l = record l0 { no_free_event_buffers = 0 } in
      if leb (length w.pe.free_q) b.gvt_threshold
      then (if leb max_alloc_fail_count starved.no_free_event_buffers
          then none
          else some (stop (force_update starved)))
      else if hook_due b w
      then some (stop (force_update l))
      else do
        (e, pq) ← tw_pq_dequeue w.pe.pq
        let w' = set_pe w (record w.pe { pq = pq })
        if e == null then some (stop l) else run_event b l e w'

  -- The loop over `msg_i`.
  unfoldable pub tw_sched_batch : ℕ → Batch → Loop m → Run (Loop m)
  tw_sched_batch zero b l = some l
  tw_sched_batch (suc msg_i) b l = batch_one b l >>= λ next. elim next [
    | stop l' ↦ some l'
    | again l' ↦ tw_sched_batch msg_i b l'
  ]
