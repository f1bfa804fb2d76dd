-- ===== src/Eventq/Holds.antt =====
-- The states around `tw_eventq_fossil_collect` of core/tw-eventq.h, and its calls that move nothing or
-- the whole list.
use mathlib.Core.List.{append-nil}
use ross.Prelude.{
  ◌^◌, ◌<◌, ◌≡◌, refl, sym, subst, Has, ◌+◌, Bool, true, false, Option, some, List, [], ◌∷◌, ◌++◌,
  reverse, All, arith, length,
}
use ross.Queue.Tree.{Ptr, null}
use ross.Eventq.{TwEventq}
use ross.Eventq.Linked.{last_or, Distinct, Linked-allocated}
use ross.Eventq.Relink.{not_null, last-positive}
use ross.Eventq.Ops.{IsQueue}
use ross.Eventq.Prepend.{All-last}
use ross.Eventq.PushList.{tw_eventq_push_list-Pushed}
use ross.Eventq.Released.{Clean, AllSent}
use ross.Eventq.Round.{Caused, total}
use ross.Eventq.Collect.{pe_sevent_q, Collecting, collect_all, tw_eventq_fossil_collect}

-- The list of a process and its free list are in the store, and have no event in common.
pub record Holds (s : Collecting) (xs fs : List Ptr) : Type 0 where
  pub queue : IsQueue (record { links = s.links; q = s.q }) xs
  pub free : IsQueue (record { links = s.links; q = s.free_q }) fs
  pub apart : Distinct (xs ++ fs)
  pub fits : length (xs ++ fs) < 2 ^ 64

-- No event of the two lists waits in `sevent_q`, those that do are allocated, and the events with the
-- number of caused ones fit a `size_t`.
pub record Sends (s : Collecting) (xs fs : List Ptr) : Type 0 where
  pub clean : Clean s.owner (xs ++ fs)
  pub sent : AllSent s.owner
  pub room : length (xs ++ fs) + total s.caused xs < 2 ^ 64

-- The old events went from the list to the free list, behind the sent events that they had caused,
-- and were committed from the oldest on.
pub record Collected (s : Collecting) (keep old fs : List Ptr) (out : Option Collecting)
    : Type 0 where
  pub s' : Collecting
  pub returns : out ≡ some s'
  pub freed : List Ptr
  pub holds : Holds s' keep (freed ++ (old ++ fs))
  pub sound : (p : Ptr) → Has p freed → (s.owner p ≡ pe_sevent_q) × Caused s.caused (reverse old) p
  pub complete : (p : Ptr) → Caused s.caused (reverse old) p → s.owner p ≡ pe_sevent_q → Has p freed
  pub committed : s'.commits ≡ s.commits ++ reverse old

module _ (older : Ptr → Bool) where
  pub nothing-Collected :
      (s : Collecting) (keep fs : List Ptr)
      → Holds s keep fs
      → All (λ e. older e ≡ false) keep
      → Collected s keep [] fs (tw_eventq_fossil_collect older s)
  unfolding tw_eventq_fossil_collect
  nothing-Collected s [] fs v o = record {
    s' = s;
    returns = rw (v.queue.tail, tw_eventq_fossil_collect) refl;
    holds = v;
    freed = [];
    sound = λ p h. absurd h;
    complete = λ p c o. absurd c;
    committed = sym (append-nil s.commits);
  }
  nothing-Collected s (k ∷ ks) fs v o =
      let pos = last-positive k ks (Linked-allocated s.links null (k ∷ ks) null v.queue.linked) in
      record {
        s' = s;
        returns =
            rw
              (
                v.queue.tail,
                tw_eventq_fossil_collect,
                not_null (last_or k ks) pos,
                All-last (λ e. older e ≡ false) k ks o,
              )
              refl;
        holds = v;
        freed = [];
        sound = λ p h. absurd h;
        complete = λ p c o. absurd c;
        committed = sym (append-nil s.commits);
      }

  pub whole-Collected :
      (s : Collecting) (o : Ptr) (os fs : List Ptr)
      → Holds s (o ∷ os) fs
      → Sends s (o ∷ os) fs
      → All (λ e. older e ≡ true) (o ∷ os)
      → Collected s [] (o ∷ os) fs (tw_eventq_fossil_collect older s)
  unfolding tw_eventq_fossil_collect collect_all
  whole-Collected s o os fs v e old =
      let q0 : TwEventq = record { size = 0; head = null; tail = null } in
      let pos = last-positive o os (Linked-allocated s.links null (o ∷ os) null v.queue.linked) in
      let put =
        tw_eventq_push_list-Pushed (record s { q = q0 }) null o os null fs v.queue.linked v.free
          v.apart e.clean e.sent e.room in
      record {
        s' = put.s';
        returns =
            rw
              (
                v.queue.tail,
                tw_eventq_fossil_collect,
                v.queue.head,
                v.queue.sized,
                not_null (last_or o os) pos,
                old.0,
                All-last (λ e. older e ≡ true) o os old,
              )
              put.returns;
        freed = put.freed;
        holds = record {
          queue =
              subst (λ z. IsQueue (record { links = put.s'.links; q = z }) []) (sym put.q)
                (record {
                  linked = tt;
                  head = refl;
                  tail = refl;
                  distinct = tt;
                  sized = refl;
                  fits = omega arith;
                });
          free = put.holds;
          apart = put.holds.distinct;
          fits = put.holds.fits;
        };
        sound = put.sound;
        complete = put.complete;
        committed = put.commits;
      }
