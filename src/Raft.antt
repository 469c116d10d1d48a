-- ===== src/Raft.antt =====
-- raft/: the consensus module. `Log` is the replicated log, `State` a node's state with its
-- messages, `Node` the handlers, each of which the event loop runs to its end before the next.
pub mod Log
pub mod State
pub mod Node
