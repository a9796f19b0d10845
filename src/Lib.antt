-- ===== src/Lib.antt =====
-- BoltsRebuilt, the native GPU plugin and its runtime: the policies that decide what is skipped,
-- reused or waited for. The plugin runs on a command processor thread beside a replay worker; most of
-- its parts are caches, each of which must never answer what the original path would not have found.
--
-- - Residency, Pages: the mirror of the valid pages of shared memory, read without a lock
--   (src/gpu/native/native_shared_residency_mirror.h), and the ranges that an invalidation is capped
--   to (src/gpu/native/native_invalidation_range.h). A word of the mirror is a number below 2 ^ 64,
--   its array a list of 2048. The mirror is cleared before the live words are, in the two steps of
--   Residency.System.
-- - Ranges: the batch of byte ranges and the queue of upload pages (src/gpu/native/native_range_batch.h).
-- - Shadow: the bytes last uploaded (src/gpu/native/native_upload_shadow.cpp); a token is an epoch.
--   Shadow.Compare classifies the pages of an upload (native_upload_shadow_compare.h), without clocks.
-- - Wait: the budgets and polls of a guest wait (src/gpu/native/native_wait_poll.h and
--   src/gpu/native/native_precise_wait_policy.h). The timer is a parameter, Wait.Precise.Backend. The
--   loop of the precise wait has the source's bound of eight waits, and its last pass only reads.
-- - Replay: the worker that executes recorded streams (src/gpu/native/native_replay_worker.cpp), its
--   slot, sessions of chunks and thread. What Direct3D answers is the parameter Replay.Step.Answers.
-- - Memo: the one-entry memos of translations, descriptors, shader pairs and render target claims, and
--   the poll of the texture notification (the files native_*_memo.h and native_texture_outdated_poll.h
--   under src/gpu/native).
-- - AssetTable: the open-addressing table of src/gpu/native/native_asset_mapping_table.h, over any
--   value, capacity, probe limit and width of the generation; the probe runs on the source's limit of
--   steps.
-- - AssetCache: src/gpu/native/native_asset_cache.cpp. Pack is the parser of the pack file, with SHA-256
--   as a parameter; its loop runs on the number of records. Resolve and Resolve.Calls are the
--   resolution of a guest range over the mapping table: the invalidations that other threads make
--   between its reads are arguments; a write of guest memory and its announcement are one event. Of
--   the allocations only that of the snapshot fails.
-- - TexturePack: src/gpu/native/offline_texture_cache.cpp. The reader of the pack, with the hash of the
--   SDK as a parameter, and TexturePack.Upload, the preparation of an upload; the loops run on the
--   count of records and the number of rows. Files and guest memory are functions of their arguments.
-- - UploadPool: src/gpu/native/native_gpu_upload_pool.cpp. What the driver answers for a heap and what
--   the SDK's own pool does to its lists and answers are arguments.
-- - PipelineKey: PipelineKeyFor and CreatePipeline of src/gpu/native/native_geometry_pass.cpp, and
--   src/gpu/native/native_pipeline_key.h. How a register word is read is a parameter, with the bits
--   that each field lies in; the shaders and the root signature are told apart by their flags.
-- - Records: the recorder of src/gpu/nb_cp_records.cpp; a record in the file is the record itself.
-- - Affinity: src/gpu/native/native_cpu_affinity_policy.h.
-- - Watch: src/runtime/watch_fastpath.h; its loops run on the number of blocks or pages left.
-- - Constants: the packets of constants and their reuse (src/gpu/native/native_constant_reuse.h,
--   native_constant_layout.h and native_vertex_constant_reuse.h).
-- - Bindings: src/gpu/native/native_texture_binding_cache.h; a resolution of the SDK is a parameter.
-- - StaticBindings: src/gpu/vendored/include/rex/graphics/d3d12/native_static_bindings.h; in
--   StaticBindings.Root the command list drops all roots when its signature changes, as Direct3D does.
-- - Input: the scripted controller (src/input/nb_scripted_input.cpp); std::atoi, std::atof, the clock
--   and the bits of the SDK's buttons are parameters.
-- - AlphaTest: src/gpu/native/native_alpha_test_variant.h.
-- - Tests: runs at concrete inputs.
--
-- A machine integer is a native number with its wrap-around written out; a counter of 64 bits that
-- only counts events is taken not to wrap. Pointers and handles are numbers, 0 for null. Atomic words
-- are read and written in single steps. Not modelled: the Direct3D passes, the shader compilers and
-- files, the SDK's own sources, the hooks on guest code, the sound, the overlays and the diagnostics.
pub mod Prelude
pub mod Pages
pub mod Residency
pub mod Ranges
pub mod Shadow
pub mod Wait
pub mod Replay
pub mod Memo
pub mod AssetTable
pub mod Affinity
pub mod Watch
pub mod Constants
pub mod Bindings
pub mod Input
pub mod AlphaTest
pub mod StaticBindings
pub mod Tests
pub mod UploadPool
pub mod TexturePack
pub mod AssetCache
pub mod Records
pub mod PipelineKey
