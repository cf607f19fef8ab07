-- ===== src/Queue.antt =====
-- queue.go: the queue of broadcasts with a transmit limit, and the treap that orders it.
pub mod Item
pub mod Treap
pub mod Limited
