-- ===== src/Event/Compare.antt =====
-- `tw_event_sig_compare_ptr` of core/ross-types.h and the comparisons of core/queue/splay.c.
use Prim.Native.Nat.{compare, Ordering}
use Prim.Native.Nat.Ordering.{lt, eq, gt}
use ross.Prelude.{ℕ, Bool, true, false, Option, none, some, List, [], ◌∷◌}
use ross.Event.{TwEventSig, TwEvent}

-- The loop over the tie breakers and the comparison of the two lengths behind it; `lt` is -1, `eq`
-- is 0 and `gt` is 1.
unfoldable pub lineage_compare : List ℕ → List ℕ → Ordering
lineage_compare [] [] = eq
lineage_compare [] (y ∷ ys) = lt
lineage_compare (x ∷ xs) [] = gt
lineage_compare (x ∷ xs) (y ∷ ys) = elim (compare x y) [
  | lt ↦ lt
  | gt ↦ gt
  | eq ↦ lineage_compare xs ys
]

unfoldable pub tw_event_sig_compare_ptr : TwEventSig → TwEventSig → Ordering
tw_event_sig_compare_ptr e n = elim (compare e.recv_ts n.recv_ts) [
  | lt ↦ lt
  | gt ↦ gt
  | eq ↦ elim (compare e.priority n.priority) [
    | lt ↦ lt
    | gt ↦ gt
    | eq ↦ lineage_compare e.event_tiebreaker n.event_tiebreaker
  ]
]

-- The branch for a total tie; `none` is the call of `tw_error`.
unfoldable pub total_tie : TwEvent → TwEvent → Option Bool
total_tie n e = elim (compare n.event_id e.event_id) [
  | lt ↦ some true
  | gt ↦ some false
  | eq ↦ elim (compare n.send_pe e.send_pe) [ lt ↦ some true | gt ↦ some false | eq ↦ none ]
]

-- The loop over the tie breakers of `e` and `n`, and what follows it.
unfoldable pub lineage_less_than : TwEvent → TwEvent → List ℕ → List ℕ → Option Bool
lineage_less_than n e [] [] = total_tie n e
lineage_less_than n e [] (y ∷ ys) = some true
lineage_less_than n e (x ∷ xs) [] = some false
lineage_less_than n e (x ∷ xs) (y ∷ ys) = elim (compare y x) [
  | lt ↦ some false
  | gt ↦ some true
  | eq ↦ lineage_less_than n e xs ys
]

unfoldable pub tw_pq_compare_less_than_rand : TwEvent → TwEvent → Option Bool
unfolding lineage_less_than total_tie
tw_pq_compare_less_than_rand n e = elim (compare n.recv_ts e.recv_ts) [
  | lt ↦ some true
  | gt ↦ some false
  | eq ↦ elim (compare n.sig.priority e.sig.priority) [
    | lt ↦ some true
    | gt ↦ some false
    | eq ↦ lineage_less_than n e n.sig.event_tiebreaker e.sig.event_tiebreaker
  ]
]

-- The comparison of a build without the tie breaker.
unfoldable pub tw_pq_compare_less_than : TwEvent → TwEvent → Option Bool
tw_pq_compare_less_than n e = elim (compare n.recv_ts e.recv_ts) [
  | lt ↦ some true
  | gt ↦ some false
  | eq ↦ elim (compare n.send_lp e.send_lp) [
    | lt ↦ some true
    | gt ↦ some false
    | eq ↦ elim (compare n.dest_gid e.dest_gid) [
      | lt ↦ some true
      | gt ↦ some false
      | eq ↦ elim (compare n.event_id e.event_id) [ lt ↦ some true | gt ↦ some false | eq ↦ none ]
    ]
  ]
]
