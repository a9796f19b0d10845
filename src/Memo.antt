-- ===== src/Memo.antt =====
-- One-entry memos of the plugin.
pub mod Translation
pub mod ReadyPair
pub mod Descriptor
pub mod Outdated
pub mod Ownership
