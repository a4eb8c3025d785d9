-- ===== src/Store/Mailbox.antt =====
-- pkg/server/store/mailbox.go: the durable queue of messages, and the runs that work on them.
pub mod Enqueue
pub mod Scan
pub mod Claim
pub mod Complete
pub mod Valid
pub mod Runs
pub mod Lease
pub mod Turns
pub mod Tests
