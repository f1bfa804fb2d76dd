-- ===== src/Queue.antt =====
-- core/queue/splay.c and core/queue/tw-queue.h: the pending events of a processing element in a
-- splay tree with a pointer to its least node.
pub mod Tree
pub mod Pq
pub mod Splay
pub mod Sorted
pub mod Valid
pub mod Enqueue
pub mod Locate
pub mod Dequeue
pub mod Delete
