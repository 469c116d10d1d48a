-- ===== src/Server.antt =====
-- net/server.go, net/server_ext.go and net/raft_cmd.go: what the server does with a request. `Raft`
-- has the path of a write through the log.
pub mod Replies
pub mod Hashes
pub mod Lists
pub mod Sets
pub mod Blocking
pub mod Raft
pub mod Connection
mod Tests
