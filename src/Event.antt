-- ===== src/Event.antt =====
-- `tw_event_sig` and the keys of `tw_event` in core/ross-types.h. A time stamp, a priority or a tie
-- breaker is a non-negative `double` that the code here only compares: a number stands for its rank
-- among the doubles.
pub mod Compare
pub mod Order
pub mod Queue
use ross.Prelude.{ℕ, List}

-- `event_tiebreaker[0 .. tie_lineage_length - 1]` is a list.
pub record TwEventSig : Type 0 where
  pub recv_ts : ℕ
  pub priority : ℕ
  pub event_tiebreaker : List ℕ

-- The fields of `struct tw_event` by which events are told apart; `dest_gid` is `dest_lp->gid`.
pub record TwEvent : Type 0 where
  pub recv_ts : ℕ
  pub sig : TwEventSig
  pub event_id : ℕ
  pub send_pe : ℕ
  pub send_lp : ℕ
  pub dest_gid : ℕ
