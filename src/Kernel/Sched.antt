-- ===== src/Kernel/Sched.antt =====
-- `tw_sched_event_q` and `tw_sched_cancel_q` of core/tw-sched.c.
use Prim.Native.Nat.Ordering.{gt}
use ross.Prelude.{ℕ, zero, suc, Bool, not, none, some, List, [], ◌∷◌, ◌==◌, ◌||◌, if◌then◌else◌}
use ross.Event.Compare.{tw_event_sig_compare_ptr}
use ross.Queue.Tree.{Ptr}
use ross.Queue.Pq.{Run, ◌>>=◌, pe_pq}
use ross.Eventq.Alloc.{pe_free_q}
use ross.Kernel.Machine.{Machine}
use ross.Kernel.State.{World, set_pe, owner_of, pe_event_q, kp_pevent_q, pe_anti_msg}
use ross.Kernel.Output.{tw_event_free}
use ross.Kernel.Create.{enqueue}
use ross.Kernel.Send.{set_owner_of}
use ross.Kernel.Cancel.{dequeue_any}
use ross.Kernel.Rollback.{tw_kp_rollback_to_sig, tw_kp_rollback_event}

-- `tw_eventq_delete_any`, on the list.
unfoldable pub delete_first : Ptr → List Ptr → List Ptr
delete_first e [] = []
delete_first e (x ∷ xs) = if x == e then xs else x ∷ delete_first e xs

module _ {m : Machine} where
  abbrev pub kp_of : World m → Ptr → ℕ
  kp_of w e = (w.lps (w.bufs e).dest_lp).kp

  -- `if(!cev->state.owner || cev->state.owner == TW_pe_free_q)`
  abbrev pub no_owner : World m → Ptr → Bool
  no_owner w e = owner_of w e == 0 || owner_of w e == pe_free_q

  -- A straggler rolls its kernel process back, and every event goes into the queue.
  unfoldable pub receive : Ptr → World m → Run (World m)
  receive e w = elim (tw_event_sig_compare_ptr (w.kps (kp_of w e)).last_sig (w.keys e).sig) [
    | gt ↦ tw_kp_rollback_to_sig (kp_of w e) (w.keys e).sig w >>= enqueue e
    | _ ↦ enqueue e w
  ]

  -- One event of the list that was taken from `event_q`.
  unfoldable pub spin_one : Ptr → World m → Run (World m)
  unfolding receive set_owner_of
  spin_one e w =
      if no_owner w e
      then none
      else if (w.bufs e).cancel_q
      then some (set_owner_of e pe_anti_msg w)
      else if owner_of w e == pe_event_q
      then receive e w
      else none

  unfoldable pub spin_list : List Ptr → World m → Run (World m)
  spin_list [] w = some w
  spin_list (e ∷ es) w = spin_one e w >>= spin_list es

  -- `while (me->event_q.size)`, on fuel.
  unfoldable pub tw_sched_event_q : ℕ → World m → Run (World m)
  tw_sched_event_q zero w = none
  tw_sched_event_q (suc fuel) w = elim w.pe.event_q [
    | [] ↦ some w
    | e ∷ es ↦
        spin_list (e ∷ es) (set_pe w (record w.pe { event_q = [] })) >>= tw_sched_event_q fuel
  ]

  unfoldable pub cancel_one : Ptr → World m → Run (World m)
  unfolding delete_first
  cancel_one e w =
      let owner = owner_of w e in
      let received = set_pe w (record w.pe { event_q = delete_first e w.pe.event_q }) in
      if not (w.bufs e).cancel_q
      then none
      else if no_owner w e
      then none
      else if owner == pe_event_q
      then some (tw_event_free e received)
      else if owner == pe_anti_msg
      then some (tw_event_free e w)
      else if owner == pe_pq
      then (dequeue_any e w >>= λ w'. some (tw_event_free e w'))
      else if owner == kp_pevent_q
      then (tw_kp_rollback_event e w >>= λ w'. some (tw_event_free e w'))
      else none

  unfoldable pub cancel_list : List Ptr → World m → Run (World m)
  cancel_list [] w = some w
  cancel_list (e ∷ es) w = cancel_one e w >>= cancel_list es

  -- `while (me->cancel_q)`, on fuel: a rollback may cancel further events.
  unfoldable pub tw_sched_cancel_q : ℕ → World m → Run (World m)
  tw_sched_cancel_q zero w = none
  tw_sched_cancel_q (suc fuel) w = elim w.pe.cancel_q [
    | [] ↦ some w
    | e ∷ es ↦
        cancel_list (e ∷ es) (set_pe w (record w.pe { cancel_q = [] })) >>= tw_sched_cancel_q fuel
  ]
