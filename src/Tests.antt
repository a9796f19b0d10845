-- ===== src/Tests.antt =====
-- Runs of the development at concrete inputs.
mod Memory
mod Ranges
mod Bindings
mod Constants
mod Workers
mod Waits
mod Tables
mod Memos
mod Texts
mod Pools
mod Uploads
mod Draws
mod Packs
mod Assets
