-- ===== src/Sandbox.antt =====
-- pkg/sh/sandbox: the file system of an agent, kept below one directory.
pub mod Paths
pub mod Fs
