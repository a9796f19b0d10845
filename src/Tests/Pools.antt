-- ===== src/Tests/Pools.antt =====
-- Concrete pools of upload pages and frames of records.
use bolts_rebuilt.Prelude.{
  ◌+◌, ◌≡◌, refl, true, false, none, some, List, [], ◌∷◌, ◌++◌, arith, length, if◌then◌else◌,
}
use bolts_rebuilt.UploadPool.{
  aligned_page_bytes, Buffer, Pool, Page, Move, new_pool, create, retire, advance,
}
use bolts_rebuilt.UploadPool.Service.{served, no_page, request, refuse, shut_down}
use bolts_rebuilt.UploadPool.Budget.{
  Call, ask, close, called, after, detached, Balanced, Counted, new_pool-Balanced, shut_down_lem,
}
use bolts_rebuilt.UploadPool.Refusal.{request-refused_for_good}

abbrev mapped_buffer : Buffer
mapped_buffer = record { resource = 7; mapped = 0x1000; gpu_address = 0x8000 }

-- Two pages fit the budget.
abbrev two_pages : Pool
two_pages = new_pool true true 100 0x20000

abbrev open_page_moves : List Move
open_page_moves = retire ∷ create (some mapped_buffer) (some mapped_buffer) ∷ advance 256 0 ∷ []

abbrev first_page : Page
first_page = record {
  resource = some 7;
  mapped = some 0x1000;
  gpu_address = 0x8000;
  gpu = true;
  retained = false;
  bytes = 0x10000;
}

-- Three pages are opened: the third is an ordinary one.
abbrev three_requests : List Call
three_requests =
    ask 256 open_page_moves (served first_page 0)
    ∷ ask 512 open_page_moves (served first_page 256)
    ∷ ask 256 open_page_moves (served first_page 0)
    ∷ []

three_requests_bytes : (after two_pages three_requests).gpu_bytes ≡ 0x20000
unfolding after new_pool
three_requests_bytes = refl

-- Then a shutdown without proof detaches the two pages in GPU memory.
abbrev closed_requests : List Call
closed_requests = three_requests ++ close false ∷ []

closed_requests-detached : detached two_pages closed_requests ≡ 0x20000
unfolding detached new_pool called
closed_requests-detached = refl

new_pool-Balanced_example :
    Balanced (detached two_pages closed_requests) (after two_pages closed_requests)
unfolding aligned_page_bytes
new_pool-Balanced_example = new_pool-Balanced true true 100 0x20000 closed_requests (omega arith)

three_requests-Counted : Counted (after two_pages three_requests)
unfolding aligned_page_bytes detached
three_requests-Counted = new_pool-Balanced true true 100 0x20000 three_requests (omega arith)

shut_down_lem_example :
    let q = shut_down (after two_pages three_requests) false in
    (q.gpu_bytes ≡ (if false then 0 else (after two_pages three_requests).gpu_bytes))
    × (q.stats.retained_resources ≡ (
        if false
        then (after two_pages three_requests).stats.retained_resources
        else (after two_pages three_requests).stats.retained_resources
          + length (after two_pages three_requests).writable
          + length (after two_pages three_requests).submitted))
    × (q.writable ≡ [])
    × (q.submitted ≡ [])
    × (shut_down q true ≡ q)
unfolding after new_pool
shut_down_lem_example =
    shut_down_lem (after two_pages three_requests) false true three_requests-Counted refl

request-refused_for_good_example :
    let q = after (request two_pages 0x20000 [] no_page).1 three_requests in
    (request q 16 [] no_page ≡ (none, refuse q))
    × (q.stats.requests ≡ two_pages.stats.requests)
    × (q.stats.requested_bytes ≡ two_pages.stats.requested_bytes)
unfolding request new_pool
request-refused_for_good_example =
    request-refused_for_good two_pages 0x20000 [] no_page three_requests 16 [] no_page refl
