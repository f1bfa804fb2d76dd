-- ===== src/Queue/Valid.antt =====
-- The representation invariant of a queue.
use ross.Prelude.{◌<◌, ◌≡◌, Bool, Option, List, [], ◌∷◌, All, length}
use ross.Queue.Tree.{Ptr, null, to_list}
use ross.Queue.Pq.{TwPq}
use ross.Queue.Sorted.{Sorted}

abbrev pub head_or_null : List Ptr → Ptr
head_or_null [] = null
head_or_null (x ∷ xs) = x

-- The events, in order.
abbrev pub events : TwPq → List Ptr
events st = to_list st.root

pub record IsValid (less_than : Ptr → Ptr → Option Bool) (st : TwPq) : Type 0 where
  pub sorted : Sorted less_than (events st)
  pub least : st.least ≡ head_or_null (events st)
  pub counted : st.nitems ≡ length (events st)
  pub allocated : All (λ x. 0 < x) (events st)
