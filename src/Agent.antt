-- ===== src/Agent.antt =====
-- pkg/agent: what an agent does on one trigger.
pub mod Capture
pub mod Types
pub mod Requests
pub mod Host
pub mod Spill
pub mod Decisions
pub mod Loop
