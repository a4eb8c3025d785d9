-- ===== src/Store.antt =====
-- pkg/server/store: the mailbox, the runs, the steps and the schedules of the control plane.
pub mod Types
pub mod Envelope
pub mod Tables
pub mod Mailbox
pub mod Schedule
pub mod Agents
