-- ===== src/Kernel/Machine.antt =====
-- What the kernel calls: the handlers of `tw_lptype` that a model installs, the floating-point
-- addition of time stamps, the generator of the tie breakers, the network and the buddy allocator.
use ross.Prelude.{ℕ, Option, List}
use ross.Event.{TwEvent}
use ross.Queue.Tree.{Ptr}
use ross.Kernel.Element.{Pe}

-- A call of `tw_event_new_user_prio`, the write of the message and the call of `tw_event_send`.
pub record Request (Message : Type 0) : Type 0 where
  pub dest_gid : ℕ
  pub offset_ts : ℕ
  pub prio : ℕ
  pub message : Message

-- What an event handler leaves: the state, the bit field and the message it may write to, and the
-- events that it sends, in order.
pub record Handled (State Bitfield Message : Type 0) : Type 0 where
  pub state : State
  pub cv : Bitfield
  pub message : Message
  pub requests : List (Request Message)

pub record Machine : Type 1 where
  pub State : Type 0
  pub Bitfield : Type 0
  pub Message : Type 0
  pub Rng : Type 0
  pub Net : Type 0
  pub Buddy : Type 0
  -- `(*type->event)`, for the local number of the process and its time.
  pub event : ℕ → ℕ → State → Bitfield → Message → Handled State Bitfield Message
  -- `(*type->revent)`
  pub revent : ℕ → ℕ → State → Bitfield → Message → State × Bitfield × Message
  -- `(*type->map)`, and `tw_getlocal_lp`.
  pub lp_map : ℕ → ℕ
  pub getlocal_lp : ℕ → ℕ
  pub zero_bitfield : Bitfield
  pub stime_add : ℕ → ℕ → ℕ
  -- `none` is a call of `tw_error`.
  pub rand_unif : Rng → ℕ × Rng
  pub rand_reverse_unif : Rng → Option Rng
  -- `send_begin` and `test_q(&posted_sends, me, send_finish)` of `tw_net_send`, for an event that is
  -- in the network's queue: the owners of the events change as the sends go on.
  pub net_send : Ptr → TwEvent → Message → (Ptr → ℕ) → Net → (Ptr → ℕ) × Net
  -- `tw_net_cancel` with its `service_queues`: it may release the event, and take in others that
  -- arrive, so that it may change every list of the processing element.
  pub net_cancel : Ptr → TwEvent → Pe → Net → Pe × Net
  pub buddy_free : Ptr → Buddy → Buddy
