-- ===== src/Event/Queue.antt =====
-- The comparisons of core/queue/splay.c as orders of the kind that Queue/Sorted.antt describes, and
-- beside the order of the signatures.
use Prim.Native.Nat.Ordering.{gt}
use ross.Prelude.{ℕ, ◌≡◌, ◌≢◌, refl, true, false, some, List, [], ◌∷◌, arith}
use ross.Event.{TwEvent}
use ross.Event.Compare.{
  lineage_compare, total_tie, lineage_less_than, tw_event_sig_compare_ptr,
  tw_pq_compare_less_than_rand, tw_pq_compare_less_than,
}
use ross.Queue.Tree.{Ptr}
use ross.Queue.Sorted.{IsOrder}

lineage_irrefl : (a : TwEvent) (xs : List ℕ) → lineage_less_than a a xs xs ≢ some true
unfolding lineage_less_than total_tie
lineage_irrefl a [] = ground arith
lineage_irrefl a (x ∷ xs) = ground (arith, lineage_irrefl a xs)

lineage-asymm :
    (a b : TwEvent) (xs ys : List ℕ)
    → lineage_less_than a b xs ys ≡ some false
    → lineage_less_than b a ys xs ≡ some true
unfolding lineage_less_than total_tie
lineage-asymm a b [] [] h = ground arith
lineage-asymm a b [] (y ∷ ys) h = cc
lineage-asymm a b (x ∷ xs) [] h = refl
lineage-asymm a b (x ∷ xs) (y ∷ ys) h = ground (arith, lineage-asymm a b xs ys)

lineage_trans :
    (a b c : TwEvent) (xs ys zs : List ℕ)
    → lineage_less_than a b xs ys ≡ some true
    → lineage_less_than b c ys zs ≡ some true
    → lineage_less_than a c xs zs ≡ some true
unfolding lineage_less_than total_tie
lineage_trans a b c [] [] [] h k = ground arith
lineage_trans a b c [] [] (z ∷ zs) h k = refl
lineage_trans a b c [] (y ∷ ys) [] h k = cc
lineage_trans a b c [] (y ∷ ys) (z ∷ zs) h k = refl
lineage_trans a b c (x ∷ xs) [] zs h k = cc
lineage_trans a b c (x ∷ xs) (y ∷ ys) [] h k = cc
lineage_trans a b c (x ∷ xs) (y ∷ ys) (z ∷ zs) h k = ground (arith, lineage_trans a b c xs ys zs)

-- Whatever events the addresses hold, the comparison with tie breakers is a strict order where it
-- answers.
pub tw_pq_compare_less_than_rand-IsOrder :
    (event : Ptr → TwEvent) → IsOrder (λ n e. tw_pq_compare_less_than_rand (event n) (event e))
unfolding tw_pq_compare_less_than_rand
tw_pq_compare_less_than_rand-IsOrder event = record {
  irrefl = λ a. ground (arith, lineage_irrefl (event a) (event a).sig.event_tiebreaker);
  asymm = λ a b. ground (
    arith,
    lineage-asymm (event a) (event b) (event a).sig.event_tiebreaker (event b).sig.event_tiebreaker,
  );
  trans = λ a b c. ground (
    arith,
    lineage_trans (event a) (event b) (event c) (event a).sig.event_tiebreaker
        (event b).sig.event_tiebreaker (event c).sig.event_tiebreaker,
  );
}

-- Whatever events the addresses hold, the comparison of a build without tie breakers is a strict
-- order where it answers.
pub tw_pq_compare_less_than-IsOrder :
    (event : Ptr → TwEvent) → IsOrder (λ n e. tw_pq_compare_less_than (event n) (event e))
unfolding tw_pq_compare_less_than
tw_pq_compare_less_than-IsOrder event = ground arith

lineage-agrees :
    (a b : TwEvent) (xs ys : List ℕ)
    → lineage_less_than a b xs ys ≡ some true
    → lineage_compare xs ys ≢ gt
unfolding lineage_less_than total_tie lineage_compare
lineage-agrees a b [] [] h = λ e. cc
lineage-agrees a b [] (y ∷ ys) h = λ e. cc
lineage-agrees a b (x ∷ xs) [] h = cc
lineage-agrees a b (x ∷ xs) (y ∷ ys) h = ground (arith, lineage-agrees a b xs ys)

-- Where the time stamps of two events are those of their signatures, an event that is less than
-- another in the queue has no greater signature.
pub less_than_rand-sig :
    (n e : TwEvent)
    → n.recv_ts ≡ n.sig.recv_ts
    → e.recv_ts ≡ e.sig.recv_ts
    → tw_pq_compare_less_than_rand n e ≡ some true
    → tw_event_sig_compare_ptr n.sig e.sig ≢ gt
unfolding tw_pq_compare_less_than_rand tw_event_sig_compare_ptr
less_than_rand-sig n e p q h =
    ground (arith, lineage-agrees n e n.sig.event_tiebreaker e.sig.event_tiebreaker)
