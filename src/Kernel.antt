-- ===== src/Kernel.antt =====
-- The optimistic kernel of one processing element: core/tw-kp.c, core/tw-event.c,
-- core/ross-inline.h and the queues of core/tw-sched.c.
pub mod Element
pub mod Machine
pub mod State
pub mod Output
pub mod Create
pub mod Send
pub mod Cancel
pub mod Rollback
pub mod Pending
pub mod Frame
pub mod Causes
pub mod Undo
pub mod Ready
pub mod Restore
pub mod Secondary
pub mod Sched
pub mod Receive
pub mod Batch
pub mod Abort
pub mod Keeps
pub mod Sent
pub mod Draws
pub mod Still
pub mod Sends
pub mod Calm
pub mod Undoing
pub mod Reversal
