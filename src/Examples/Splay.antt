-- ===== src/Examples/Splay.antt =====
-- core/queue/splay.c at concrete inputs: a queue of three events, ordered by their signatures.
use ross.Prelude.{◌+◌, ◌^◌, ◌<◌, ◌≡◌, refl, Bool, Option, [], ◌∷◌, ◌++◌, arith, length}
use ross.Event.Compare.{tw_pq_compare_less_than_rand}
use ross.Event.Queue.{tw_pq_compare_less_than_rand-IsOrder}
use ross.Queue.Tree.{Ptr, leaf, node, to_list}
use ross.Queue.Pq.{TwPq, tw_pq_enqueue, tw_pq_dequeue, tw_pq_delete_any}
use ross.Queue.Sorted.{IsOrder, Comparable}
use ross.Queue.Valid.{events, IsValid}
use ross.Queue.Enqueue.{Inserted, tw_pq_enqueue-Inserted}
use ross.Queue.Dequeue.{Dequeued, tw_pq_dequeue-Dequeued}
use ross.Queue.Delete.{Deleted, tw_pq_delete_any-Deleted}
use ross.Examples.Signatures.{event_at}

abbrev less : Ptr → Ptr → Option Bool
less n e = tw_pq_compare_less_than_rand (event_at n) (event_at e)

less-IsOrder : IsOrder less
less-IsOrder = tw_pq_compare_less_than_rand-IsOrder event_at

abbrev three : TwPq
three = record {
  root = node (node leaf 2 leaf) 4 (node leaf 8 leaf);
  least = 2;
  nitems = 3;
  max_size = 3;
  owner = λ p. 4;
}

three-IsValid : IsValid less three
unfolding to_list tw_pq_compare_less_than_rand
three-IsValid = record {
  sorted = ((refl, (refl, tt)), ((refl, tt), (tt, tt)));
  least = refl;
  counted = refl;
  allocated = (omega arith, (omega arith, (omega arith, tt)));
}

six-Comparable : Comparable less 6 (events three)
unfolding to_list tw_pq_compare_less_than_rand
six-Comparable = ((λ e. cc), ((λ e. cc), ((λ e. cc), tt)))

three-events : events three ≡ (2 ∷ []) ++ 4 ∷ (8 ∷ [])
unfolding to_list
three-events = refl

room : length (events three) + 1 < 2 ^ 32
unfolding to_list
room = omega arith

tw_pq_enqueue-Inserted_example : Inserted less-IsOrder 6 three (tw_pq_enqueue less three 6)
tw_pq_enqueue-Inserted_example =
    tw_pq_enqueue-Inserted less-IsOrder 6 three-IsValid (omega arith) six-Comparable room

tw_pq_dequeue-Dequeued_example : Dequeued less-IsOrder three (events three) (tw_pq_dequeue three)
tw_pq_dequeue-Dequeued_example = tw_pq_dequeue-Dequeued less-IsOrder three-IsValid

tw_pq_delete_any-Deleted_example : Deleted less-IsOrder (2 ∷ 8 ∷ []) (tw_pq_delete_any three 4)
tw_pq_delete_any-Deleted_example =
    tw_pq_delete_any-Deleted less-IsOrder 4 (2 ∷ []) (8 ∷ []) three-IsValid three-events
