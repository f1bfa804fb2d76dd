-- ===== src/Kernel/Rollback.antt =====
-- `tw_kp_rollback_to_sig` and `tw_kp_rollback_event` of core/tw-kp.c.
use Prim.Native.Nat.Ordering.{lt}
use ross.Prelude.{ℕ, zero, suc, ◌+◌, Bool, true, false, none, some, List, [], ◌∷◌, ◌==◌, length}
use ross.Event.{TwEventSig, TwEvent}
use ross.Event.Compare.{tw_event_sig_compare_ptr}
use ross.Queue.Tree.{Ptr}
use ross.Queue.Pq.{Run, ◌>>=◌}
use ross.Kernel.Machine.{Machine}
use ross.Kernel.State.{World, set_kp}
use ross.Kernel.Create.{enqueue}
use ross.Kernel.Cancel.{tw_event_rollback}

-- `tw_event_sig_compare_ptr(&sig, to_sig) >= 0`
unfoldable pub not_before : TwEventSig → TwEventSig → Bool
not_before sig to_sig = elim (tw_event_sig_compare_ptr sig to_sig) [ lt ↦ false | _ ↦ true ]

-- The signature of the newest processed event, or that of the global time.
abbrev pub newest : (Ptr → TwEvent) → TwEventSig → List Ptr → TwEventSig
newest keys gvt [] = gvt
newest keys gvt (x ∷ xs) = (keys x).sig

module _ {m : Machine} where
  unfoldable pub reset_last_sig : ℕ → World m → World m
  reset_last_sig k w =
      set_kp w k (record (w.kps k) { last_sig = newest w.keys w.pe.gvt_sig (w.kps k).pevent_q })

  -- `tw_eventq_shift(&kp->pevent_q)`, where `xs` is the list behind the head.
  abbrev pub shift : ℕ → List Ptr → World m → World m
  shift k xs w = set_kp w k (record (w.kps k) { pevent_q = xs })

  -- One round of the loop, for the newest processed event.
  unfoldable pub rollback_one : ℕ → Ptr → List Ptr → World m → Run (World m)
  unfolding reset_last_sig
  rollback_one k e xs w = do
    w' ← tw_event_rollback e (shift k xs w)
    enqueue e (reset_last_sig k w')

  -- The loop, on fuel.
  unfoldable pub rollback_loop : ℕ → ℕ → TwEventSig → World m → Run (World m)
  rollback_loop zero k to_sig w = none
  rollback_loop (suc fuel) k to_sig w = elim (w.kps k).pevent_q [
    | [] ↦ some w
    | e ∷ xs ↦ elim (not_before (w.keys e).sig to_sig) [
      | true ↦ rollback_one k e xs w >>= rollback_loop fuel k to_sig
      | false ↦ some w
    ]
  ]

  unfoldable pub tw_kp_rollback_to_sig : ℕ → TwEventSig → World m → Run (World m)
  unfolding rollback_loop
  tw_kp_rollback_to_sig k to_sig w =
      rollback_loop (suc (length (w.kps k).pevent_q)) k to_sig
        (set_kp w k (record (w.kps k) { s_rb_total = (w.kps k).s_rb_total + 1 }))

  -- A round of the loop of `tw_kp_rollback_event` for an event that is not the one looked for: its
  -- `last_sig` reads through the head of the list, a fault if there is none.
  unfoldable pub rollback_newer : ℕ → Ptr → List Ptr → World m → Run (World m)
  rollback_newer k e [] w = none
  rollback_newer k e (x ∷ xs) w = do
    w' ←
        tw_event_rollback e
          (set_kp w k (record (w.kps k) { pevent_q = x ∷ xs; last_sig = (w.keys x).sig }))
    enqueue e w'

  unfoldable pub rollback_last : ℕ → Ptr → List Ptr → World m → Run (World m)
  unfolding reset_last_sig
  rollback_last k e xs w = tw_event_rollback e (shift k xs w) >>= λ w'. some (reset_last_sig k w')

  unfoldable pub find_loop : ℕ → ℕ → Ptr → World m → Run (World m)
  find_loop zero k event w = none
  find_loop (suc fuel) k event w = elim (w.kps k).pevent_q [
    | [] ↦ none
    | e ∷ xs ↦ elim (e == event) [
      | true ↦ rollback_last k e xs w
      | false ↦ rollback_newer k e xs w >>= find_loop fuel k event
    ]
  ]

  unfoldable pub tw_kp_rollback_event : Ptr → World m → Run (World m)
  unfolding find_loop
  tw_kp_rollback_event event w =
      let k = (w.lps (w.bufs event).dest_lp).kp in
      let kp = w.kps k in
      find_loop (suc (length kp.pevent_q)) k event (
        set_kp w k
          (record kp { s_rb_total = kp.s_rb_total + 1; s_rb_secondary = kp.s_rb_secondary + 1 }))
