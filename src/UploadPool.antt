-- ===== src/UploadPool.antt =====
-- NativeConstantUploadPool of native_gpu_upload_pool.cpp: pages of constant slices in GPU upload
-- memory, under a budget of bytes. What the driver answers for a heap is an Option of a mapped buffer.
-- The SDK's own pool, from which this one derives, is a sequence of moves on its two lists of pages.
pub mod Service
pub mod Budget
pub mod Refusal
use bolts_rebuilt.Prelude.{
  ℕ, ◌+◌, ◌-◌, ◌*◌, ◌/◌, ◌%◌, ◌^◌, max, Bool, true, false, not, ◌&&◌, ◌||◌, Option, none, some,
  List, [], ◌∷◌, ◌++◌, leb, ltb, ◌==◌, if◌then◌else◌,
}

-- A committed resource with its mapping and its address on the GPU.
pub record Buffer : Type 0 where
  pub resource : ℕ
  pub mapped : ℕ
  pub gpu_address : ℕ

pub record Page : Type 0 where
  pub resource : Option ℕ
  pub mapped : Option ℕ
  pub gpu_address : ℕ
  pub gpu : Bool
  pub retained : Bool
  pub bytes : ℕ

pub record Stats : Type 0 where
  pub gpu_pages : ℕ
  pub upload_pages : ℕ
  pub creation_failures : ℕ
  pub budget_stops : ℕ
  pub requests : ℕ
  pub request_failures : ℕ
  pub requested_bytes : ℕ
  pub reclaims : ℕ
  pub retained_resources : ℕ

-- `writable` and `submitted` are the lists of the SDK's pool, the open page first.
pub record Pool : Type 0 where
  pub device : Bool
  pub page_size : ℕ
  pub gpu_byte_budget : ℕ
  pub gpu_upload_supported : Bool
  pub gpu_upload_failed : Bool
  pub requests_disabled : Bool
  pub shutdown : Bool
  pub gpu_bytes : ℕ
  pub writable : List Page
  pub submitted : List Page
  pub current_page_used : ℕ
  pub current_page_flushed : ℕ
  pub stats : Stats

-- AlignedPageBytes: a multiple of 64 KiB.
unfoldable pub aligned_page_bytes : ℕ → ℕ
aligned_page_bytes page_bytes = (max page_bytes 0x10000 + 0xFFFF) / 0x10000 * 0x10000

-- The constructor; `supported` is what the adapter says of GPU upload heaps.
unfoldable pub new_pool : (device supported : Bool) → (page_bytes gpu_byte_budget : ℕ) → Pool
unfolding aligned_page_bytes
new_pool device supported page_bytes gpu_byte_budget = record {
  device = device;
  page_size = aligned_page_bytes page_bytes;
  gpu_byte_budget = gpu_byte_budget;
  gpu_upload_supported = device && supported;
  gpu_upload_failed = false;
  requests_disabled = false;
  shutdown = false;
  gpu_bytes = 0;
  writable = [];
  submitted = [];
  current_page_used = 0;
  current_page_flushed = 0;
  stats = record {
    gpu_pages = 0;
    upload_pages = 0;
    creation_failures = 0;
    budget_stops = 0;
    requests = 0;
    request_failures = 0;
    requested_bytes = 0;
    reclaims = 0;
    retained_resources = 0;
  };
}

page_of : Pool → Bool → Buffer → Page
page_of p gpu b = record {
  resource = some b.resource;
  mapped = some b.mapped;
  gpu_address = b.gpu_address;
  gpu = gpu;
  retained = false;
  bytes = p.page_size;
}

-- The second half of CreatePageImplementation: an ordinary upload page.
unfoldable pub create_upload : Pool → Option Buffer → Option Page × Pool
unfolding page_of
create_upload p none = (none, p)
create_upload p (some b) = (
  some (page_of p false b),
  record p { stats = record p.stats { upload_pages = p.stats.upload_pages + 1 } },
)

-- The first half, where GPU memory is to be used: a failure latches the fallback.
unfoldable pub create_gpu : Pool → (gpu_buffer upload_buffer : Option Buffer) → Option Page × Pool
unfolding page_of create_upload
create_gpu p none upload_buffer =
    create_upload
      (record p {
        gpu_upload_failed = true;
        stats = record p.stats { creation_failures = p.stats.creation_failures + 1 };
      })
      upload_buffer
create_gpu p (some b) upload_buffer = (
  some (page_of p true b),
  record p {
    gpu_bytes = (p.gpu_bytes + p.page_size) % 2 ^ 64;
    stats = record p.stats { gpu_pages = p.stats.gpu_pages + 1 };
  },
)

-- CreatePageImplementation, with what the driver would answer for each of the heaps.
unfoldable pub create_page : Pool → (gpu_buffer upload_buffer : Option Buffer) → Option Page × Pool
unfolding create_gpu create_upload
create_page p gpu_buffer upload_buffer =
    let budget_available = leb ((p.gpu_bytes + p.page_size) % 2 ^ 64) p.gpu_byte_budget in
    let wanted = p.gpu_upload_supported && not p.gpu_upload_failed in
    if not p.device
    then (none, p)
    else if wanted && budget_available
    then create_gpu p gpu_buffer upload_buffer
    else create_upload
        (record p {
          stats = record p.stats {
            budget_stops = p.stats.budget_stops + (if wanted then 1 else 0);
          };
        })
        upload_buffer

-- What the SDK's pool does to its lists: it retires its open page to the submitted ones, takes the
-- oldest submitted page back, moves its offsets in the open page, or asks for a page and opens it.
pub data Move : Type 0 where
  retire : Move
  take_back : Move
  advance : (used flushed : ℕ) → Move
  create : (gpu_buffer upload_buffer : Option Buffer) → Move

abbrev pub open_page : Option Page × Pool → Pool
open_page (none, p) = p
open_page (some page, p) = record p { writable = page ∷ p.writable }

unfoldable pub move_pages : Move → (writable submitted : List Page) → List Page × List Page
move_pages retire (page ∷ writable) submitted = (writable, submitted ++ page ∷ [])
move_pages take_back writable (page ∷ submitted) = (writable ++ page ∷ [], submitted)
move_pages _ writable submitted = (writable, submitted)

unfoldable pub move : Pool → Move → Pool
unfolding create_page move_pages
move p (create gpu_buffer upload_buffer) = open_page (create_page p gpu_buffer upload_buffer)
move p (advance used flushed) = record p {
  current_page_used = used;
  current_page_flushed = flushed;
}
move p m =
    let (writable, submitted) = move_pages m p.writable p.submitted in
    record p { writable = writable; submitted = submitted }

unfoldable pub moves : Pool → List Move → Pool
unfolding move
moves p [] = p
moves p (m ∷ ms) = moves (move p m) ms
