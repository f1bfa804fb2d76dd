-- ===== src/Lib.antt =====
-- A verification library for ROSS, Rensselaer's optimistic parallel discrete event simulator.
--
-- The program runs logical processes on processing elements. Every event carries a signature; the
-- pending events of a processing element wait in a splay tree in the order of their signatures,
-- the processed ones hang in doubly linked lists until global virtual time passes them, and the
-- events that came from other elements are also kept by key in an AVL tree or a hash table, so
-- that their anti-messages find them. Event handlers draw random numbers from reversible
-- generators, which a rollback runs backward.
--
-- Which file models what:
--
-- - Rng: core/rand-clcg4.c. Rng/FindB is `FindB`, Rng/MultModM is `MultModM`, Rng/Component one of
--   the four components of a draw and of its reversal, Rng/Gen `rng_gen_val` and
--   `rng_gen_reverse_val`, Rng/Gen/Init the seeding (`clamp_seed`, `rng_init`, `rng_core_init`,
--   `rng_init_generator`, `tw_rand_initial_seed`), Rng/Gen/Streams `tw_rand_init_streams`. The
--   operations of the type `double` are a record that the draws take as a parameter, since only
--   the integer part of the state is ever restored. `MultModM` runs over signed integers by two
--   parts; its loops `while (R < 0) R += M` run on fuel, one more than the distance from 0, which
--   is enough since every round adds at least 1. Neither its integers nor those of `FindB` are cut to
--   their widths; the results about them are for arguments in the range that the code assumes.
-- - Queue: core/queue/splay.c. A tree is a value, and the UP links of a node are its path to the
--   root (Queue/Tree); Queue/Pq is `struct tw_pq` and the operations. Queue/Sorted holds the
--   interface of the queue to the comparison, `IsOrder`, and Queue/Valid the invariant.
-- - Event: `tw_event_sig` and its comparison in core/ross-types.h, and the two comparisons of
--   core/queue/splay.c, which Event/Queue relates to `IsOrder`. Time stamps, priorities and tie
--   breakers are non-negative doubles that are only compared here: numbers stand for their ranks.
-- - Avl: core/avl_tree.c. A tree is a value and the free list of nodes a number. Avl/Sane is about
--   the stored heights, Avl/Check about `avlSanityCheck`, Avl/Balance, Avl/Rebalance and Avl/Grow
--   about balance, Avl/Keys about the order of keys, and Avl/Search, Avl/Insert and Avl/Delete
--   about the operations.
-- - Eventq: core/tw-eventq.h. The links of all events are a store of two functions on addresses,
--   so an operation on one list leaves the others in the picture. Eventq/Linked defines chains,
--   Eventq/Relink is about the conditional writes, Eventq/Alloc is `tw_eventq_alloc`, Eventq/Ops
--   and Eventq/Splice about the operations, Eventq/Collect is fossil collection, Eventq/Released,
--   Eventq/Round and Eventq/Committed are about the loop over the committed events, Eventq/Prepend,
--   Eventq/PushList, Eventq/Holds and Eventq/Fossil about the whole, Eventq/Debug about
--   `tw_eventq_debug`. The two loops along `prev` run on fuel: the size of the list and the number of
--   moved events, which is enough since each round visits another event. For each committed event the
--   release of the sent events that it caused is modelled; the call of `commit` is an entry in the
--   list of commits. The output messages and deltas of committed and released events and the hash
--   table are left out, and so are the checks of `tw_eventq_debug` in the operations.
-- - Kernel: the optimistic kernel of one processing element, for a build with tie breakers.
--   Kernel/Machine is the interface to what the kernel calls: the handlers of the model, the map of
--   processes, the sum of time stamps, the generator, the network, the buddy allocator. Of the network
--   layer `tw_net_send` may change the owners of events and `tw_net_cancel` any list of the
--   processing element; that the first releases events whose cancellation has left, and that
--   arriving messages fill buffers, is not modelled, and the results on rollbacks of several events
--   are for events whose consequences stay in the process. Kernel/Element and Kernel/State hold the
--   structures of core/ross-types.h and the memory of a process, which has one processing element;
--   the lists that Eventq models by their links are lists here. Kernel/Output is about
--   output buffers and the release of events (core/tw-kp.c, core/ross-inline.h), Kernel/Create about
--   `tw_event_grab` and `tw_event_new_user_prio` (core/ross-inline.h), Kernel/Send and Kernel/Cancel
--   are core/tw-event.c, Kernel/Rollback is `tw_kp_rollback_to_sig` and `tw_kp_rollback_event` of
--   core/tw-kp.c, Kernel/Sched and Kernel/Batch are `tw_sched_event_q`, `tw_sched_cancel_q` and
--   `tw_sched_batch` of core/tw-sched.c. The event queue is that of Queue, with the comparison of
--   Event. A handler is a function from the state, the bit field and the message to new ones and to
--   the events that it sends, in order. The loops of core/tw-kp.c run on fuel, one more than the
--   number of processed events, which is enough since each round takes one of them; those of
--   `tw_sched_event_q` and `tw_sched_cancel_q` take their fuel as an argument. Kernel/Pending is
--   about the queue and the owners, Kernel/Frame, Kernel/Causes and Kernel/Undo about the rollback
--   of one event, Kernel/Restore, Kernel/Secondary, Kernel/Receive and Kernel/Abort about those of
--   several and their callers, Kernel/Sent, Kernel/Sends, Kernel/Calm and Kernel/Reversal about a
--   rollback right after the event was processed. The counters that are only printed, the clocks
--   and the branch of `event_cancel` that repeats a test that failed are left out.
-- - Setup: the tables of processes. `map_linear` and `map_round_robin` of core/tw-setup.c, with
--   `tw_kp_onpe` (core/tw-kp.c), `tw_lp_onpe` and `tw_lp_onkp` (core/tw-lp.c), and the cases of
--   `tw_getlocal_lp` (core/ross-kernel-inline.h) for these maps. The rounded quotient of `map_linear`,
--   taken in `double`, is a parameter. Setup/Placed is about single steps, Setup/Linear and
--   Setup/RoundRobin about the two maps. Process numbers are not cut to their widths.
-- - Stats: the buffer of core/instrumentation/st-stats-buffer.c, `st_buffer_push` and
--   `st_buffer_write`. The gathered sizes of the ranks and the threshold, taken in `double`, are a
--   parameter; a copy outside of the array is `none`. Stats/Bytes is about copies, Stats/Pushed and
--   Stats/Bounded about the push, Stats/Written about the write. The warning on the first overflow
--   and the times are left out.
-- - Delta: core/tw-state.c, `tw_snapshot`, `tw_snapshot_delta` and `tw_snapshot_restore`, over the
--   bytes of a state. The compressor and the success of `buddy_alloc` are a parameter; a failed
--   assertion or call is `none`. Delta/Restored is about a snapshot, a delta and its restore. The
--   kernel's files do not use it, since the handlers of a model call it.
-- - Prelude: tests, lists and integers that the others share. Examples: tests, and the theorems
--   applied at concrete inputs.
--
-- An event is known by its address, a number, and 0 is the null pointer. Calls of `tw_error`,
-- which do not return, and accesses through null pointers are the result `none`. The sizes of the
-- queue and of the lists wrap around at 2 ^ 32 and 2 ^ 64.
--
-- Not modelled: the rest of core/tw-sched.c, `tw_kp_rollback_to` of a build without tie breakers,
-- global virtual time (core/gvt), the hash table (core/hash-quadratic.c), the buddy allocator
-- (core/buddy.c), the network and the rest of set-up; clocks, statistics, the rest of
-- instrumentation, options and checkpoint files are input and
-- output; core/lz4.c is a copy of another project.
pub mod Prelude
pub mod Rng
pub mod Queue
pub mod Event
pub mod Avl
pub mod Eventq
pub mod Kernel
pub mod Setup
pub mod Stats
pub mod Delta
pub mod Examples
