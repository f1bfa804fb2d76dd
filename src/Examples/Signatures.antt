-- ===== src/Examples/Signatures.antt =====
-- Events told apart by their signatures, at concrete inputs.
use Prim.Native.Nat.Ordering.{lt, gt}
use ross.Prelude.{◌≡◌, ◌≢◌, refl, true, some, [], ◌∷◌, ◌+◌}
use ross.Event.{TwEvent}
use ross.Event.Compare.{
  tw_event_sig_compare_ptr, tw_pq_compare_less_than_rand, lineage_compare, lineage_less_than,
}
use ross.Event.Queue.{tw_pq_compare_less_than_rand-IsOrder, less_than_rand-sig}
use ross.Queue.Tree.{Ptr}
use ross.Queue.Sorted.{IsOrder}

-- The event at an address: later addresses hold later events.
abbrev pub event_at : Ptr → TwEvent
event_at p = record {
  recv_ts = p;
  sig = record { recv_ts = p; priority = 1; event_tiebreaker = 7 ∷ p ∷ [] };
  event_id = p + 100;
  send_pe = 0;
  send_lp = 3;
  dest_gid = 4;
}

-- An event of the same time whose lineage is longer.
abbrev child : TwEvent
child = record {
  recv_ts = 2;
  sig = record { recv_ts = 2; priority = 1; event_tiebreaker = 7 ∷ 2 ∷ 9 ∷ [] };
  event_id = 5;
  send_pe = 0;
  send_lp = 3;
  dest_gid = 4;
}

parent_first : tw_pq_compare_less_than_rand (event_at 2) child ≡ some true
unfolding tw_pq_compare_less_than_rand lineage_less_than
parent_first = refl

parent_first_sig : tw_event_sig_compare_ptr (event_at 2).sig child.sig ≡ lt
unfolding tw_event_sig_compare_ptr lineage_compare
parent_first_sig = refl

tw_pq_compare_less_than_rand-IsOrder_example :
    IsOrder (λ n e. tw_pq_compare_less_than_rand (event_at n) (event_at e))
tw_pq_compare_less_than_rand-IsOrder_example = tw_pq_compare_less_than_rand-IsOrder event_at

less_than_rand-sig_example : tw_event_sig_compare_ptr (event_at 2).sig child.sig ≢ gt
less_than_rand-sig_example = less_than_rand-sig (event_at 2) child refl refl parent_first
