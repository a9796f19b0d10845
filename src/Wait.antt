-- ===== src/Wait.antt =====
-- src/gpu/native/native_wait_poll.h and native_precise_wait_policy.h: how the command thread waits
-- for a register or a memory word, and the table of the targets it was blocked on.
pub mod Spin
pub mod Precise
pub mod Targets
