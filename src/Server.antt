-- ===== src/Server.antt =====
-- pkg/server: the runtime that gives an agent its messages and stores what comes of them.
pub mod Context
pub mod Steps
pub mod Results
pub mod Turns
pub mod Workers
pub mod AgentIds
pub mod Queue
pub mod Serve
