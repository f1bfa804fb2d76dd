-- ===== src/Eventq/Fossil.antt =====
-- `tw_eventq_fossil_collect` of core/tw-eventq.h where a part of the list is older than GVT, and in
-- general.
use mathlib.Core.List.{append-nil, append_assoc}
use ross.Prelude.{
  ℕ, ◌+◌, ◌<◌, ◌≡◌, refl, sym, ap, ◌∙◌, subst, Bool, true, false, some, List, [], ◌∷◌, ◌++◌,
  reverse, inl, inr, Has, Has-append, All, All-append_left, All-append_right, arith, length,
  length-append,
}
use ross.Queue.Tree.{Ptr, null}
use ross.Eventq.{set_next, shrink}
use ross.Eventq.Linked.{
  first_or, last_or, Distinct, Linked-left, Linked-right, Linked-allocated, Linked-set_next,
  set_next-last, Distinct-left, Distinct-right, Distinct-last, last_or-append, next-last,
}
use ross.Eventq.Relink.{not_null, last-positive}
use ross.Eventq.Ops.{IsQueue}
use ross.Eventq.Walk.{
  Back, Linked-Back, All-reverse, length-reverse, first_or-reverse, older_walk-Back,
}
use ross.Eventq.Released.{Clean, NotIn, Has-left_of, Has-right_of}
use ross.Eventq.Prepend.{All-last, Distinct-apart}
use ross.Eventq.PushList.{tw_eventq_push_list-Pushed, Distinct-join, NotIn-of_apart, total-append}
use ross.Eventq.Collect.{
  older_walk, Collecting, tw_eventq_push_list, collect_part, tw_eventq_fossil_collect,
}
use ross.Eventq.Holds.{Holds, Sends, Collected, nothing-Collected, whole-Collected}

module _ (older : Ptr → Bool) where
  search :
      (fuel : ℕ) (prev : Ptr → Ptr) (n : Ptr) (r : List Ptr)
      → Back prev n r
      → 0 < length r
      → 0 < n
      → older n ≡ false
      → All (λ e. older e ≡ true) r
      → length r < fuel + 1
      → older_walk fuel prev older (prev (first_or r n)) 1 ≡ some (n, length r)
  search fuel prev n [] k some_r pos stop o f = absurd (omega arith)
  search fuel prev n (e ∷ es) k some_r pos stop o f = rw k.1 (
      older_walk-Back fuel prev older n es 1 k.2 pos stop o.1 (omega arith)
      ∙ ap (λ z. some (n, z)) (omega arith))

  part_step :
      (s : Collecting) (n o : Ptr) (cnt : ℕ)
      → 0 < s.q.tail
      → older s.q.tail ≡ true
      → older s.q.head ≡ false
      → older_walk s.q.size s.links.prev older (s.links.prev s.q.tail) 1 ≡ some (n, cnt)
      → 0 < n
      → s.links.next n ≡ o
      → tw_eventq_fossil_collect older s
        ≡ tw_eventq_push_list
            (record s { links = set_next s.links n null; q = shrink (record s.q { tail = n }) cnt })
            o
            s.q.tail
            cnt
  unfolding tw_eventq_fossil_collect collect_part
  part_step s n o cnt pos old young walk pos_n e =
      rw
        (
          not_null s.q.tail pos,
          tw_eventq_fossil_collect,
          old,
          young,
          walk,
          collect_part,
          not_null n pos_n,
          e,
        )
        refl

  part-Collected :
      (s : Collecting) (k : Ptr) (ks : List Ptr) (o : Ptr) (os fs : List Ptr)
      → Holds s (k ∷ ks ++ o ∷ os) fs
      → Sends s (k ∷ ks ++ o ∷ os) fs
      → All (λ e. older e ≡ false) (k ∷ ks)
      → All (λ e. older e ≡ true) (o ∷ os)
      → Collected s (k ∷ ks) (o ∷ os) fs (tw_eventq_fossil_collect older s)
  part-Collected s k ks o os fs v e young old =
      let n = last_or k ks in
      let t = last_or o os in
      let keep = k ∷ ks in
      let linked = v.queue.linked in
      let chain = Linked-right s.links null keep (o ∷ os) null linked in
      let front = Linked-left s.links null keep (o ∷ os) null linked in
      let pos_n = last-positive k ks (Linked-allocated s.links null keep o front) in
      let pos_t = last-positive o os (Linked-allocated s.links n (o ∷ os) null chain) in
      let apart = subst Distinct (append_assoc keep (o ∷ os) fs) v.apart in
      let moved = Distinct-right keep (o ∷ os ++ fs) apart in
      let not_n = Distinct-last k ks (o ∷ os ++ fs) apart in
      let σ = set_next s.links n null in
      let q = shrink (record s.q { tail = n }) (length (o ∷ os)) in
      let s1 = record s { links = σ; q = q } in
      let free1 : IsQueue (record { links = σ; q = s.free_q }) fs = record {
        linked =
            Linked-set_next s.links null fs null n null (All-append_right _ (o ∷ os) fs not_n)
              v.free.linked;
        head = v.free.head;
        tail = v.free.tail;
        distinct = v.free.distinct;
        sized = v.free.sized;
        fits = v.free.fits;
      } in
      let counts = length-append keep (o ∷ os ++ fs) in
      let whole = ap length (append_assoc keep (o ∷ os) fs) in
      let clean : Clean s.owner (o ∷ os ++ fs) = λ z i. e.clean z (
        subst (Has z) (sym (append_assoc keep (o ∷ os) fs))
          (Has-right_of z keep (o ∷ os ++ fs) i)) in
      let clean_keep : Clean s.owner keep =
        λ z i. e.clean z (Has-left_of z (keep ++ o ∷ os) fs (Has-left_of z keep (o ∷ os) i)) in
      let put =
        tw_eventq_push_list-Pushed s1 n o os null fs
          (Linked-set_next s.links n (o ∷ os) null n null (All-append_left _ (o ∷ os) fs not_n)
            chain)
          free1 moved clean e.sent
          (omega (arith, counts, whole, e.room, total-append s.caused keep (o ∷ os))) in
      let rev = length-reverse (o ∷ os) in
      let split = length-append keep (o ∷ os) in
      let walk =
        search s.q.size s.links.prev n (reverse (o ∷ os))
          (Linked-Back s.links n (o ∷ os) null chain) (omega (arith, rev)) pos_n
          (All-last (λ e. older e ≡ false) k ks young)
          (All-reverse (λ e. older e ≡ true) (o ∷ os) old)
          (omega (arith, rev, v.queue.sized, split)) in
      let at = v.queue.tail ∙ last_or-append null keep (o ∷ os) in
      let found : older_walk s.q.size s.links.prev older (s.links.prev t) 1
          ≡ some (n, length (o ∷ os)) =
        subst
          (λ z.
            older_walk s.q.size s.links.prev older (s.links.prev z) 1 ≡ some (n, length (o ∷ os)))
          (first_or-reverse (o ∷ os) n) (walk ∙ ap (λ z. some (n, z)) rev) in
      let not_moved : NotIn keep (put.freed ++ (o ∷ os ++ fs)) = λ k i j.
        elim (Has-append k put.freed (o ∷ os ++ fs) j) [
          | inl f ↦ clean_keep k i ((put.sound k f).0)
          | inr z ↦
              NotIn-of_apart keep (o ∷ os ++ fs) (Distinct-apart keep (o ∷ os ++ fs) apart) k i z
        ] in
      record {
        s' = put.s';
        returns =
            part_step s n o (length (o ∷ os)) (subst (λ z. 0 < z) (sym at) pos_t)
              (subst (λ z. older z ≡ true) (sym at) (All-last (λ e. older e ≡ true) o os old))
              (subst (λ z. older z ≡ false) (sym v.queue.head) young.0)
              (subst
                (λ z.
                  older_walk s.q.size s.links.prev older (s.links.prev z) 1
                  ≡ some (n, length (o ∷ os)))
                (sym at) found)
              pos_n (next-last s.links null k ks o front)
            ∙ ap (λ z. tw_eventq_push_list s1 o z (length (o ∷ os))) at
            ∙ put.returns;
        freed = put.freed;
        holds = record {
          queue =
              subst (λ z. IsQueue (record { links = put.s'.links; q = z }) keep) (sym put.q)
                (record {
                  linked = put.others null null keep clean_keep apart (
                      set_next-last s.links null k ks o null
                        (Distinct-left keep (o ∷ os ++ fs) apart) front);
                  head = v.queue.head;
                  tail = refl;
                  distinct = Distinct-left keep (o ∷ os ++ fs) apart;
                  sized = omega (arith, v.queue.sized, split, v.queue.fits);
                  fits = omega (arith, split, v.queue.fits);
                });
          free = put.holds;
          apart =
              Distinct-join keep (put.freed ++ (o ∷ os ++ fs))
                (Distinct-left keep (o ∷ os ++ fs) apart) put.holds.distinct not_moved;
          fits = omega (
            arith,
            whole,
            counts,
            length-append keep (put.freed ++ (o ∷ os ++ fs)),
            length-append put.freed (o ∷ os ++ fs),
            put.count,
            total-append s.caused keep (o ∷ os),
            e.room,
          );
        };
        sound = put.sound;
        complete = put.complete;
        committed = put.commits;
      }

  -- Let the events of a list that are not older than GVT all stand before the older ones, let none
  -- of its events and of the free list wait in `sevent_q`, those that do be allocated, and all events
  -- with the number of caused ones fit a `size_t`. Then `tw_eventq_fossil_collect` returns, leaves the
  -- former in the list, and commits the latter from the tail on, each once. The free list then holds
  -- the sent events that the committed ones had caused, and no other ones, in front, and then the
  -- committed events in order and the old free list.
  pub tw_eventq_fossil_collect-Collected :
      (s : Collecting) (keep old fs : List Ptr)
      → Holds s (keep ++ old) fs
      → Sends s (keep ++ old) fs
      → All (λ e. older e ≡ false) keep
      → All (λ e. older e ≡ true) old
      → Collected s keep old fs (tw_eventq_fossil_collect older s)
  tw_eventq_fossil_collect-Collected s keep [] fs v e young old =
      nothing-Collected older s keep fs (subst (λ xs. Holds s xs fs) (append-nil keep) v) young
  tw_eventq_fossil_collect-Collected s [] (o ∷ os) fs v e young old =
      whole-Collected older s o os fs v e old
  tw_eventq_fossil_collect-Collected s (k ∷ ks) (o ∷ os) fs v e young old =
      part-Collected s k ks o os fs v e young old
