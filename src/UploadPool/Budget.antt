-- ===== src/UploadPool/Budget.antt =====
-- The GPU bytes of the pool: counted page by page, and never over the budget.
use bolts_rebuilt.Prelude.{
  suc, ℕ, ◌+◌, ◌-◌, ◌^◌, ◌<◌, ◌≤◌, ◌≡◌, refl, ap, Bool, true, false, not, ◌&&◌, Option, none, some,
  List, [], ◌∷◌, ◌++◌, ◌||◌, if◌then◌else◌, arith, length, inl, inr, Option-cases,
}
use mathlib.Core.Path.{subst}
use bolts_rebuilt.UploadPool.{
  aligned_page_bytes, Page, Pool, Buffer, Move, retire, take_back, advance, create, moves, move,
  move_pages, create_page, open_page, new_pool,
}
use bolts_rebuilt.UploadPool.Service.{
  release, release_all, clear_cache, retain, retain_lists, shut_down, reclaim_completed, request,
  deliver, serve, refuse, repair, Answer, served, no_page, bad_alloc,
}

abbrev page_gpu_bytes : Page → ℕ
page_gpu_bytes page = if page.gpu && not page.retained then page.bytes else 0

-- The GPU bytes of the pages that are neither deleted nor given up.
abbrev pub gpu_total : List Page → ℕ
gpu_total [] = 0
gpu_total (page ∷ pages) = page_gpu_bytes page + gpu_total pages

abbrev is_held : Option ℕ → ℕ
is_held none = 0
is_held (some _) = 1

-- The pages that hold a resource.
abbrev pub held_total : List Page → ℕ
held_total [] = 0
held_total (page ∷ pages) = is_held page.resource + held_total pages

gpu_total-append : (xs ys : List Page) → gpu_total (xs ++ ys) ≡ gpu_total xs + gpu_total ys
gpu_total-append [] ys = omega arith
gpu_total-append (x ∷ xs) ys = omega (arith, gpu_total-append xs ys)

held_total-append : (xs ys : List Page) → held_total (xs ++ ys) ≡ held_total xs + held_total ys
held_total-append [] ys = omega arith
held_total-append (x ∷ xs) ys = omega (arith, held_total-append xs ys)

length_append : (xs ys : List Page) → length (xs ++ ys) ≡ length xs + length ys
length_append [] ys = omega arith
length_append (x ∷ xs) ys = omega (arith, length_append xs ys)

-- The counter is the sum over the pages and the bytes of what was detached for ever, each page holds
-- its resource, and the budget is kept.
pub record Balanced (detached : ℕ) (p : Pool) : Type 0 where
  pub counted : p.gpu_bytes ≡ gpu_total p.writable + gpu_total p.submitted + detached
  pub held : held_total p.writable + held_total p.submitted ≡ length p.writable + length p.submitted
  pub within : p.gpu_bytes ≤ p.gpu_byte_budget
  pub small : p.gpu_byte_budget + p.page_size < 2 ^ 64

create_page-Balanced :
    (d : ℕ) (p : Pool) (gpu_buffer upload_buffer : Option Buffer)
    → Balanced d p
    → Balanced d (open_page (create_page p gpu_buffer upload_buffer))
unfolding create_page
create_page-Balanced d p none none v = ground arith
create_page-Balanced d p none (some b) v = ground arith
create_page-Balanced d p (some g) none v = ground arith
create_page-Balanced d p (some g) (some b) v = ground arith

move_pages-totals :
    (m : Move) (w s : List Page)
    → let (w', s') = move_pages m w s in
      (gpu_total w' + gpu_total s' ≡ gpu_total w + gpu_total s)
      × (held_total w' + held_total s' ≡ held_total w + held_total s)
      × (length w' + length s' ≡ length w + length s)
unfolding move_pages
move_pages-totals retire [] s = (refl, refl, refl)
move_pages-totals retire (page ∷ w) s = omega (
  arith,
  gpu_total-append s (page ∷ []),
  held_total-append s (page ∷ []),
  length_append s (page ∷ []),
)
move_pages-totals take_back w [] = (refl, refl, refl)
move_pages-totals take_back w (page ∷ s) = omega (
  arith,
  gpu_total-append w (page ∷ []),
  held_total-append w (page ∷ []),
  length_append w (page ∷ []),
)
move_pages-totals (advance used flushed) w s = (refl, refl, refl)
move_pages-totals (create a b) w s = (refl, refl, refl)

move-Balanced : (d : ℕ) (p : Pool) (m : Move) → Balanced d p → Balanced d (move p m)
unfolding move
move-Balanced d p (create a b) v = create_page-Balanced d p a b v
move-Balanced d p (advance used flushed) v = ground arith
move-Balanced d p retire v = ground (arith, move_pages-totals retire p.writable p.submitted)
move-Balanced d p take_back v = ground (arith, move_pages-totals take_back p.writable p.submitted)

moves-Balanced : (d : ℕ) (p : Pool) (ms : List Move) → Balanced d p → Balanced d (moves p ms)
unfolding moves
moves-Balanced d p [] v = v
moves-Balanced d p (m ∷ ms) v = moves-Balanced d (move p m) ms (move-Balanced d p m v)

refuse-Balanced : (d : ℕ) (p : Pool) → Balanced d p → Balanced d (refuse p)
unfolding refuse
refuse-Balanced d p v = ground arith

repair-Balanced :
    (d : ℕ) (p : Pool) (pages : List Page) → Balanced d p → Balanced d (repair p pages)
unfolding repair
repair-Balanced d p [] v = ground arith
repair-Balanced d p (_ ∷ _) v = v

deliver-Balanced :
    (d : ℕ) (p : Pool) (size : ℕ) (answer : Answer)
    → Balanced d p
    → Balanced d (deliver p size answer).1
unfolding deliver serve
deliver-Balanced d p size no_page v = refuse-Balanced d _ (repair-Balanced d p p.writable v)
deliver-Balanced d p size bad_alloc v = refuse-Balanced d _ (repair-Balanced d p p.writable v)
deliver-Balanced d p size (served page offset) v = elim (Option-cases page.mapped) [
  | inl unmapped ↦ rw (unmapped, serve) (refuse-Balanced d _ (repair-Balanced d p p.writable v))
  | inr (mapped, e) ↦ rw (e, serve) (ground arith)
]

request-Balanced :
    (d : ℕ) (p : Pool) (size : ℕ) (ms : List Move) (answer : Answer)
    → Balanced d p
    → Balanced d (request p size ms answer).1
unfolding request
request-Balanced d p size ms answer v = ground (
  arith,
  refuse-Balanced d p v,
  deliver-Balanced d (moves p ms) size answer (moves-Balanced d p ms v),
)

reclaim_completed-Balanced :
    (d : ℕ) (p : Pool) (ms : List Move) → Balanced d p → Balanced d (reclaim_completed p ms)
unfolding reclaim_completed
reclaim_completed-Balanced d p ms v =
    let counted : Balanced d
        (record p { stats = record p.stats { reclaims = p.stats.reclaims + 1 } }) =
      ground arith in
    ground (arith, moves-Balanced d _ ms counted)

-- A call of the pool.
pub data Call : Type 0 where
  ask : (size : ℕ) → List Move → Answer → Call
  reclaim : List Move → Call
  close : (completion_proven : Bool) → Call

unfoldable pub called : Pool → Call → Pool
unfolding request reclaim_completed shut_down
called p (ask size ms answer) = (request p size ms answer).1
called p (reclaim ms) = reclaim_completed p ms
called p (close completion_proven) = shut_down p completion_proven

unfoldable pub after : Pool → List Call → Pool
unfolding called
after p [] = p
after p (call ∷ calls) = after (called p call) calls

-- The GPU bytes that a call detaches: those of the pages at a shutdown without proof.
abbrev pub detached_by : Pool → Call → ℕ
detached_by p (ask size ms answer) = 0
detached_by p (reclaim ms) = 0
detached_by p (close completion_proven) =
    if p.shutdown || completion_proven then 0 else gpu_total p.writable + gpu_total p.submitted

unfoldable pub detached : Pool → List Call → ℕ
detached p [] = 0
detached p (call ∷ calls) = detached_by p call + detached (called p call) calls

release_all-sub :
    (gpu_bytes : ℕ) (pages : List Page)
    → gpu_bytes < 2 ^ 64
    → gpu_total pages ≤ gpu_bytes
    → release_all gpu_bytes pages ≡ gpu_bytes - gpu_total pages
unfolding release_all
release_all-sub gpu_bytes [] small h = omega arith
release_all-sub gpu_bytes (page ∷ pages) small h =
    ground (arith, release_all-sub (release gpu_bytes page) pages)

-- Where every page holds its resource, each is given up, and none counts as deletable.
retain-totals :
    (pages : List Page)
    → held_total pages ≤ length pages
      × (length (retain pages).0 ≡ length pages)
      × (held_total pages ≡ length pages
          → (gpu_total (retain pages).0 ≡ 0) × ((retain pages).1 ≡ length pages))
unfolding retain
retain-totals [] = (omega arith, refl, λ _. (refl, refl))
retain-totals (page ∷ pages) =
    let (bound, same, given) = retain-totals pages in
    elim (Option-cases page.resource) [
      | inl gone ↦ rw gone (omega arith, ap suc same, λ all. absurd (omega arith))
      | inr (r, e) ↦
          rw e (omega arith, ap suc same, λ all. let g = given (omega arith) in ground arith)
    ]

shut_down-Balanced :
    (d : ℕ) (p : Pool) (completion_proven : Bool)
    → Balanced d p
    → Balanced (d + detached_by p (close completion_proven)) (shut_down p completion_proven)
unfolding shut_down clear_cache retain_lists
shut_down-Balanced d p true v = ground (
  arith,
  release_all-sub p.gpu_bytes p.writable,
  release_all-sub (release_all p.gpu_bytes p.writable) p.submitted,
)
shut_down-Balanced d p false v =
    let (bound, same, given) = retain-totals p.writable in
    let (bound', same', given') = retain-totals p.submitted in
    let g = given (omega arith) in
    let g' = given' (omega arith) in
    let first = release_all-sub p.gpu_bytes (retain p.writable).0 (omega arith) (omega arith) in
    let second = release_all-sub p.gpu_bytes (retain p.submitted).0 (omega arith) (omega arith) in
    ground arith

shifted : (d e : ℕ) (p : Pool) → d ≡ e → Balanced d p → Balanced e p
shifted d e p same = subst (λ n. Balanced n p) same

called-Balanced :
    (d : ℕ) (p : Pool) (call : Call)
    → Balanced d p
    → Balanced (d + detached_by p call) (called p call)
unfolding called
called-Balanced d p (ask size ms answer) v =
    shifted d _ _ (omega arith) (request-Balanced d p size ms answer v)
called-Balanced d p (reclaim ms) v =
    shifted d _ _ (omega arith) (reclaim_completed-Balanced d p ms v)
called-Balanced d p (close completion_proven) v = shut_down-Balanced d p completion_proven v

after-Balanced :
    (d : ℕ) (p : Pool) (calls : List Call)
    → Balanced d p
    → Balanced (d + detached p calls) (after p calls)
unfolding after detached
after-Balanced d p [] v = shifted d _ _ (omega arith) v
after-Balanced d p (call ∷ calls) v =
    shifted (d + detached_by p call + detached (called p call) calls) _ _ (omega arith)
      (after-Balanced (d + detached_by p call) (called p call) calls (called-Balanced d p call v))

-- However a fresh pool is used and shut down, with or without proof, its counter of GPU bytes is the
-- sum over its pages in GPU memory and the bytes of the pages whose resources were detached for ever,
-- every page holds its resource, and the counter never exceeds the budget, if budget and page
-- together stay below 2^64.
pub new_pool-Balanced :
    (device supported : Bool) (page_bytes budget : ℕ) (calls : List Call)
    → budget + aligned_page_bytes page_bytes < 2 ^ 64
    → let p = new_pool device supported page_bytes budget in
      Balanced (detached p calls) (after p calls)
new_pool-Balanced device supported page_bytes budget calls small =
    let p = new_pool device supported page_bytes budget in
    let start : Balanced 0 p =
      unfold new_pool in
      record { counted = refl; held = refl; within = omega arith; small = small } in
    shifted (0 + detached p calls) _ _ (omega arith) (after-Balanced 0 p calls start)

-- Nothing was detached yet.
abbrev pub Counted : Pool → Type 0
Counted = Balanced 0

shut_down_proven :
    (p : Pool)
    → Counted p
    → p.shutdown ≡ false
    → let q = shut_down p true in
      (q.gpu_bytes ≡ 0) × (q.stats ≡ p.stats) × (q.writable ≡ []) × (q.submitted ≡ [])
unfolding shut_down clear_cache
shut_down_proven p v is_open = ground (
  arith,
  release_all-sub p.gpu_bytes p.writable,
  release_all-sub (release_all p.gpu_bytes p.writable) p.submitted,
)

shut_down_unproven :
    (p : Pool)
    → Counted p
    → p.shutdown ≡ false
    → let q = shut_down p false in
      (q.gpu_bytes ≡ p.gpu_bytes)
      × (q.stats.retained_resources
          ≡ p.stats.retained_resources + length p.writable + length p.submitted)
      × (q.writable ≡ [])
      × (q.submitted ≡ [])
unfolding shut_down clear_cache retain_lists
shut_down_unproven p v is_open =
    let (bound, same, given) = retain-totals p.writable in
    let (bound', same', given') = retain-totals p.submitted in
    let g = given (omega arith) in
    let g' = given' (omega arith) in
    let first = release_all-sub p.gpu_bytes (retain p.writable).0 (omega arith) (omega arith) in
    let second = release_all-sub p.gpu_bytes (retain p.submitted).0 (omega arith) (omega arith) in
    ground arith

-- Shutting an open pool down deletes all pages: with a proof of completion the counter of GPU bytes
-- falls to 0 and nothing is retained; without, it keeps its value and the resource of every page is
-- retained. A second shutdown changes nothing.
pub shut_down_lem :
    (p : Pool) (completion_proven again : Bool)
    → Counted p
    → p.shutdown ≡ false
    → let q = shut_down p completion_proven in
      (q.gpu_bytes ≡ (if completion_proven then 0 else p.gpu_bytes))
      × (q.stats.retained_resources ≡ (
          if completion_proven
          then p.stats.retained_resources
          else p.stats.retained_resources + length p.writable + length p.submitted))
      × (q.writable ≡ [])
      × (q.submitted ≡ [])
      × (shut_down q again ≡ q)
unfolding shut_down clear_cache retain_lists
shut_down_lem p true again v is_open = ground (arith, shut_down_proven p v is_open)
shut_down_lem p false again v is_open = ground (arith, shut_down_unproven p v is_open)
