-- ===== src/Kernel/Element.antt =====
-- `tw_pe` of core/ross-types.h.
use ross.Prelude.{ℕ, Bool, List}
use ross.Event.{TwEventSig}
use ross.Queue.Tree.{Ptr}
use ross.Queue.Pq.{TwPq}

-- The owners of the events are those that `pq` holds.
pub record Pe : Type 0 where
  pub id : ℕ
  pub pq : TwPq
  pub event_q : List Ptr
  pub cancel_q : List Ptr
  pub free_q : List Ptr
  pub cur_event : Ptr
  pub abort_event : Ptr
  pub cev_abort : Bool
  pub gvt_sig : TwEventSig
  pub trans_msg_sig : TwEventSig
  pub gvt_inprogress : Bool
  pub seq_num : ℕ
  pub s_events_past_end : ℕ
  pub s_nsend_net_remote : ℕ
  pub s_nevent_abort : ℕ
