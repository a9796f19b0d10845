-- ===== src/UploadPool/Service.antt =====
-- Request, ReclaimCompleted and Shutdown of native_gpu_upload_pool.cpp, with the destructor of a page.
use bolts_rebuilt.Prelude.{
  ℕ, ◌+◌, ◌-◌, ◌%◌, ◌^◌, Bool, true, not, ◌&&◌, ◌||◌, Option, none, some, List, [], ◌∷◌, ltb, ◌==◌,
  if◌then◌else◌,
}
use bolts_rebuilt.UploadPool.{Page, Pool, Move, moves}

-- ~OwnedPage: the budget is shared with the pool.
unfoldable pub release : ℕ → Page → ℕ
release gpu_bytes page =
    if page.gpu && not page.retained then (gpu_bytes + 2 ^ 64 - page.bytes) % 2 ^ 64 else gpu_bytes

unfoldable pub release_all : ℕ → List Page → ℕ
unfolding release
release_all gpu_bytes [] = gpu_bytes
release_all gpu_bytes (page ∷ pages) = release_all (release gpu_bytes page) pages

-- ClearCache of the SDK's pool deletes the pages of both lists.
unfoldable pub clear_cache : Pool → Pool
unfolding release_all
clear_cache p = record p {
  gpu_bytes = release_all (release_all p.gpu_bytes p.writable) p.submitted;
  writable = [];
  submitted = [];
}

abbrev retain_page : Page → Option ℕ → Page × ℕ
retain_page page none = (page, 0)
retain_page page (some _) = (record page { resource = none; retained = true }, 1)

-- The loop `retain` of Shutdown: the pages, and how many resources were detached.
unfoldable pub retain : List Page → List Page × ℕ
retain [] = ([], 0)
retain (page ∷ pages) =
    let (page', one) = retain_page page page.resource in
    let (pages', count) = retain pages in (page' ∷ pages', one + count)

unfoldable pub retain_lists : Pool → Pool
unfolding retain
retain_lists p =
    let (writable, first) = retain p.writable in
    let (submitted, second) = retain p.submitted in
    record p {
      writable = writable;
      submitted = submitted;
      stats = record p.stats { retained_resources = p.stats.retained_resources + first + second };
    }

-- Shutdown.
unfoldable pub shut_down : Pool → (completion_proven : Bool) → Pool
unfolding clear_cache retain_lists
shut_down p completion_proven =
    let closed = record p { shutdown = true; requests_disabled = true } in
    if p.shutdown
    then p
    else clear_cache (if completion_proven then closed else retain_lists closed)

-- ReclaimCompleted; `ms` is what Reclaim of the SDK's pool does to the lists.
unfoldable pub reclaim_completed : Pool → (ms : List Move) → Pool
unfolding moves
reclaim_completed p ms =
    let counted = record p { stats = record p.stats { reclaims = p.stats.reclaims + 1 } } in
    if p.shutdown then p else moves counted ms

-- What Request gives its caller: the buffer, the offset in it, and the two addresses.
pub record Slice : Type 0 where
  pub buffer : Option ℕ
  pub offset : ℕ
  pub gpu_address : ℕ
  pub mapped : ℕ

-- What Request of the SDK's pool answers: a page with an offset, no page, or an exception.
pub data Answer : Type 0 where
  served : Page → (offset : ℕ) → Answer
  no_page : Answer
  bad_alloc : Answer

unfoldable pub refuse : Pool → Pool
refuse p = record p {
  requests_disabled = true;
  stats = record p.stats { request_failures = p.stats.request_failures + 1 };
}

-- The offsets that the SDK's pool leaves behind when it has no open page.
unfoldable pub repair : Pool → List Page → Pool
repair p [] = record p { current_page_used = 0; current_page_flushed = 0 }
repair p (_ ∷ _) = p

unfoldable pub serve : Pool → Page → (size offset : ℕ) → Option ℕ → Option Slice × Pool
unfolding refuse repair
serve p page size offset none = (none, refuse (repair p p.writable))
serve p page size offset (some mapped) = (
  some (record {
    buffer = page.resource;
    offset = offset;
    gpu_address = (page.gpu_address + offset) % 2 ^ 64;
    mapped = mapped + offset;
  }),
  record p {
    stats = record p.stats {
      requests = p.stats.requests + 1;
      requested_bytes = p.stats.requested_bytes + size;
    };
  },
)

unfoldable pub deliver : Pool → (size : ℕ) → Answer → Option Slice × Pool
unfolding serve refuse repair
deliver p size (served page offset) = serve p page size offset page.mapped
deliver p size no_page = (none, refuse (repair p p.writable))
deliver p size bad_alloc = (none, refuse (repair p p.writable))

-- Request; `ms` and `answer` are what Request of the SDK's pool does and answers.
unfoldable pub request :
    Pool → (size : ℕ) → (ms : List Move) → (answer : Answer) → Option Slice × Pool
unfolding deliver refuse moves
request p size ms answer =
    if p.requests_disabled || not p.device || size == 0 || ltb p.page_size size
    then (none, refuse p)
    else deliver (moves p ms) size answer
