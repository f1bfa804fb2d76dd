-- ===== src/Examples/Rollbacks.antt =====
-- Runs of core/tw-kp.c, core/tw-event.c and core/tw-sched.c on a small simulation.
use ross.Prelude.{
  ℕ, ◌+◌, ◌-◌, ◌≡◌, refl, ap, inl, inr, Bool, true, false, Option, none, some, [], ◌∷◌, ◌++◌,
  reverse, Has, arith,
}
use ross.Event.Compare.{tw_event_sig_compare_ptr, tw_pq_compare_less_than_rand}
use ross.Queue.Tree.{to_list, locate, splay}
use ross.Queue.Pq.{tw_pq_enqueue, descend, new_least, tw_pq_dequeue, tw_pq_delete_any, unlink_least}
use ross.Kernel.State.{World}
use ross.Kernel.Output.Returned.{owned, free_messages-owned}
use ross.Kernel.Create.{
  Config, optimistic, tw_event_new_user_prio, tw_event_grab, note_offset, enqueue,
}
use ross.Kernel.Send.{send_all, tw_event_send}
use ross.Kernel.Output.{tw_free_output_messages, free_outs, free_delta, tw_event_free, give_back}
use ross.Kernel.Cancel.{tw_event_rollback, cancel_caused, event_cancel, reverse_aborted}
use ross.Kernel.Batch.{abort, process}
use ross.Kernel.Calm.{Reverses}
use ross.Kernel.Reversal.{process-rollback}
use ross.Kernel.Undoing.{Undoes}
use ross.Kernel.Sched.{receive}
use ross.Kernel.Receive.{Received, receive-Received}
use ross.Kernel.Abort.{Aborted, abort-Aborted}
use ross.Examples.Simulation.{
  keys_at, IsLive, counting, counting-StepsBack, keys_at-NoTie, owners, world, owners-IsHeld,
  world-Ready,
}

-- Event 4 is a straggler: event 5 is processed.
receive-Received_example :
    Received keys_at IsLive 4 (world (owners 1)) (receive 4 (world (owners 1)))
unfolding to_list
receive-Received_example =
    receive-Received keys_at IsLive keys_at-NoTie counting-StepsBack 4 (world (owners 1)) refl
      (owners-IsHeld 1 (omega arith)) (world-Ready 1)
      (omega arith, (omega arith, (omega arith, tt))) refl (omega arith) refl (omega arith)

-- The last signature is that of event 3 afterwards, though event 5 is processed.
abort-Aborted_example : Aborted keys_at IsLive 4 (world (owners 0)) (abort 4 (world (owners 0)))
unfolding to_list
abort-Aborted_example =
    abort-Aborted keys_at IsLive keys_at-NoTie counting-StepsBack 4 (world (owners 0)) refl
      (owners-IsHeld 0 (omega arith)) (omega arith) (omega arith) refl tt tt (omega arith)

abbrev config : Config
config = record {
  protocol = optimistic;
  ts_end = 100;
  mynode = 0;
  max_tie_chain = 20;
  one = 1;
  too_early = λ a b. false;
}

abbrev run_or : Option (World counting) → World counting → World counting
run_or none w = w
run_or (some v) w = v

abbrev before : World counting
before = world (owners 0)

abbrev processed : World counting
processed = run_or (process config 4 before) before

abbrev rolled_back : World counting
rolled_back = run_or (tw_event_rollback 4 processed) before

counting-Undoes : Undoes counting
counting-Undoes lp now s cv msg = omega arith

plus_one : (g : ℕ) → g + 1 - 1 ≡ g
plus_one g = omega arith

counting-Reverses : Reverses counting
counting-Reverses g = ap some (plus_one g)

is_some : Option (World counting) → Bool
is_some none = false
is_some (some w) = true

some_of_is_some :
    (o : Option (World counting)) (w : World counting) → is_some o ≡ true → o ≡ some (run_or o w)
unfolding is_some
some_of_is_some none w h = cc
some_of_is_some (some v) w h = refl

process-some : is_some (process config 4 before) ≡ true
unfolding is_some process send_all tw_event_new_user_prio tw_event_grab note_offset tw_event_send
    tw_free_output_messages free_outs tw_event_sig_compare_ptr enqueue tw_pq_enqueue descend
    tw_pq_compare_less_than_rand
process-some = refl

rollback-some : is_some (tw_event_rollback 4 processed) ≡ true
unfolding is_some process send_all tw_event_new_user_prio tw_event_grab note_offset tw_event_send
    tw_free_output_messages free_outs tw_event_sig_compare_ptr enqueue tw_pq_enqueue descend
    tw_pq_compare_less_than_rand tw_event_rollback cancel_caused event_cancel free_delta
    tw_pq_delete_any tw_pq_dequeue new_least locate splay tw_event_free unlink_least reverse_aborted
    give_back
rollback-some = refl

not_four : ¬ Has {A = ℕ} 4 (8 ∷ [])
not_four (inl q) = absurd (omega arith)
not_four (inr z) = absurd z

-- The handler sends event 8, which the rollback takes out of the queue again.
process-rollback_example : rolled_back.lps 0 ≡ before.lps 0
process-rollback_example =
    process-rollback counting-Undoes counting-Reverses config 4 before refl refl refl (omega arith)
      not_four (omega arith) (some_of_is_some (process config 4 before) before process-some)
      (some_of_is_some (tw_event_rollback 4 processed) before rollback-some) 0

with_messages : World counting
with_messages = record before {
  bufs = λ p. record (before.bufs p) {
    out_msgs = record { owner = 0; message = 1 ∷ [] } ∷ record { owner = 1; message = [] } ∷ [];
  };
}

free_messages-owned_example :
    ((tw_free_output_messages 5 with_messages).kps 0).output
    ≡ reverse (owned 0 (with_messages.bufs 5).out_msgs) ++ (with_messages.kps 0).output
free_messages-owned_example = free_messages-owned 0 5 with_messages
