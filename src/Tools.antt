-- ===== src/Tools.antt =====
-- pkg/tools: the tools that an agent calls.
pub mod Lines
pub mod Pages
pub mod ApplyPatch
