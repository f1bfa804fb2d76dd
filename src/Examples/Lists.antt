-- ===== src/Examples/Lists.antt =====
-- core/tw-eventq.h at concrete inputs: the events 1 to 4 in one list, 7 in a free list. Event 4 has
-- caused event 9, which was sent to another process.
use ross.Prelude.{◌+◌, ◌≡◌, ℕ_discrete, refl, Bool, [], ◌∷◌, ◌++◌, arith, ltb, ◌==◌, if◌then◌else◌}
use ross.Queue.Tree.{Ptr}
use ross.Eventq.{Store, tw_eventq_pop, tw_eventq_delete_any, tw_eventq_splice}
use ross.Eventq.Alloc.{chunk, event_len, Allocated, tw_eventq_alloc, tw_eventq_alloc-Allocated}
use ross.Eventq.Ops.{IsQueue, tw_eventq_delete_any-IsQueue, tw_eventq_pop-delete}
use ross.Eventq.Splice.{tw_eventq_splice-IsQueue}
use ross.Eventq.Collect.{Collecting, tw_eventq_push_list, tw_eventq_fossil_collect}
use ross.Eventq.Released.{Clean, AllSent}
use ross.Eventq.PushList.{Pushed, tw_eventq_push_list-Pushed}
use ross.Eventq.Holds.{Holds, Collected}
use ross.Eventq.Fossil.{tw_eventq_fossil_collect-Collected}

abbrev next_at : Ptr → Ptr
next_at p = if p == 1 then 2 else if p == 2 then 3 else if p == 3 then 4 else 0

abbrev prev_at : Ptr → Ptr
prev_at p = if p == 2 then 1 else if p == 3 then 2 else if p == 4 then 3 else 0

abbrev state : Collecting
state = record {
  links = record { next = next_at; prev = prev_at };
  q = record { size = 4; head = 1; tail = 4 };
  free_q = record { size = 1; head = 7; tail = 7 };
  owner = λ p. if p == 9 then 8 else 0;
  caused = λ p. if p == 4 then 9 ∷ [] else [];
  commits = [];
}

abbrev store : Store
store = record { links = state.links; q = state.q }

store-IsQueue : IsQueue store (1 ∷ 2 ∷ 3 ∷ 4 ∷ [])
store-IsQueue = record {
  linked =
      ((
        omega arith,
        refl,
        refl,
        (omega arith, refl, refl, (omega arith, refl, refl, (omega arith, refl, refl, tt))),
      ));
  head = refl;
  tail = refl;
  distinct = ground arith;
  sized = refl;
  fits = omega arith;
}

free-IsQueue : IsQueue (record { links = state.links; q = state.free_q }) (7 ∷ [])
free-IsQueue = record {
  linked = (omega arith, refl, refl, tt);
  head = refl;
  tail = refl;
  distinct = (tt, tt);
  sized = refl;
  fits = omega arith;
}

state-Holds : Holds state ((1 ∷ 2 ∷ []) ++ (3 ∷ 4 ∷ [])) (7 ∷ [])
state-Holds = record {
  queue = store-IsQueue;
  free = free-IsQueue;
  apart = ground arith;
  fits = omega arith;
}

tw_eventq_delete_any-IsQueue_example :
    IsQueue (tw_eventq_delete_any store 2) ((1 ∷ []) ++ (3 ∷ 4 ∷ []))
tw_eventq_delete_any-IsQueue_example =
    tw_eventq_delete_any-IsQueue (1 ∷ []) 2 (3 ∷ 4 ∷ []) store-IsQueue

tw_eventq_pop-delete_example : tw_eventq_pop store ≡ (4, tw_eventq_delete_any store 4)
tw_eventq_pop-delete_example = tw_eventq_pop-delete (1 ∷ 2 ∷ 3 ∷ []) 4 store-IsQueue

tw_eventq_splice-IsQueue_example : IsQueue (tw_eventq_splice store 2 3 2) ((1 ∷ []) ++ (4 ∷ []))
tw_eventq_splice-IsQueue_example =
    tw_eventq_splice-IsQueue (1 ∷ []) 2 (3 ∷ []) (4 ∷ []) store-IsQueue

nine-Allocated : AllSent state.owner
nine-Allocated p o = elim (ℕ_discrete p 9) [ yes q ↦ omega arith | no q ↦ absurd (ground arith) ]

state-Clean : Clean state.owner (1 ∷ 2 ∷ 3 ∷ 4 ∷ 7 ∷ [])
state-Clean z h = ground arith

tw_eventq_push_list-Pushed_example :
    Pushed state (1 ∷ 2 ∷ 3 ∷ 4 ∷ []) (7 ∷ []) (tw_eventq_push_list state 1 4 4)
tw_eventq_push_list-Pushed_example =
    tw_eventq_push_list-Pushed state 0 1 (2 ∷ 3 ∷ 4 ∷ []) 0 (7 ∷ []) store-IsQueue.linked
      free-IsQueue state-Holds.apart state-Clean nine-Allocated (omega arith)

-- The events 3 and 4 are older than GVT.
abbrev older : Ptr → Bool
older e = ltb 2 e

tw_eventq_fossil_collect-Collected_example :
    Collected state (1 ∷ 2 ∷ []) (3 ∷ 4 ∷ []) (7 ∷ []) (tw_eventq_fossil_collect older state)
tw_eventq_fossil_collect-Collected_example =
    tw_eventq_fossil_collect-Collected older state (1 ∷ 2 ∷ []) (3 ∷ 4 ∷ []) (7 ∷ []) state-Holds
      (record { clean = state-Clean; sent = nine-Allocated; room = omega arith }) (refl, (refl, tt))
      (refl, (refl, tt))

tw_eventq_alloc-Allocated_example :
    Allocated (chunk (3 + 2) 1000 64) (tw_eventq_alloc state.links (λ p. 0) 1000 64 3 2)
tw_eventq_alloc-Allocated_example =
    tw_eventq_alloc-Allocated state.links (λ p. 0) 1000 64 3 2 (omega arith) (omega arith)
      (omega arith) (omega arith)

-- 100 bytes are rounded up to 13 times 8.
rounded : event_len 8 90 10 ≡ 104
unfolding event_len
rounded = refl

abbrev empty : Store
empty = record { links = state.links; q = record { size = 0; head = 0; tail = 0 } }

empty-IsQueue : IsQueue empty []
empty-IsQueue = record {
  linked = tt;
  head = refl;
  tail = refl;
  distinct = tt;
  sized = refl;
  fits = omega arith;
}
