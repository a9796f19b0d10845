-- ===== src/UploadPool/Refusal.antt =====
-- The error path of the pool: the first request that is not served disables all later ones, and a
-- shutdown is final.
use bolts_rebuilt.Prelude.{
  ℕ, ◌+◌, ◌≡◌, refl, ◌∙◌, true, false, none, some, List, [], ◌∷◌, arith, Option-cases, inl, inr,
}
use bolts_rebuilt.UploadPool.{
  Page, Pool, Move, retire, take_back, advance, create, moves, move, create_page,
}
use bolts_rebuilt.UploadPool.Service.{
  shut_down, clear_cache, retain_lists, reclaim_completed, request, deliver, serve, refuse, repair,
  Answer, served, no_page, bad_alloc,
}
use bolts_rebuilt.UploadPool.Budget.{Call, ask, reclaim, close, called, after}

-- What the pool has served so far.
abbrev Kept : Pool → Pool → Type 0
Kept p q =
    (q.requests_disabled ≡ p.requests_disabled)
    × (q.shutdown ≡ p.shutdown)
    × (q.stats.requests ≡ p.stats.requests)
    × (q.stats.requested_bytes ≡ p.stats.requested_bytes)

move-Kept : (p : Pool) (m : Move) → Kept p (move p m)
unfolding move create_page
move-Kept p (create none none) = ground arith
move-Kept p (create none (some b)) = ground arith
move-Kept p (create (some g) none) = ground arith
move-Kept p (create (some g) (some b)) = ground arith
move-Kept p (advance used flushed) = (refl, refl, refl, refl)
move-Kept p retire = (refl, refl, refl, refl)
move-Kept p take_back = (refl, refl, refl, refl)

moves-Kept : (p : Pool) (ms : List Move) → Kept p (moves p ms)
unfolding moves
moves-Kept p [] = (refl, refl, refl, refl)
moves-Kept p (m ∷ ms) = ground (arith, move-Kept p m, moves-Kept (move p m) ms)

repair-Kept : (p : Pool) (pages : List Page) → Kept p (repair p pages)
unfolding repair
repair-Kept p [] = (refl, refl, refl, refl)
repair-Kept p (_ ∷ _) = (refl, refl, refl, refl)

-- A call that is not served disables the requests, and serves nothing.
abbrev Refused : Pool → Pool → Type 0
Refused p q =
    (q.requests_disabled ≡ true)
    × (q.stats.requests ≡ p.stats.requests)
    × (q.stats.requested_bytes ≡ p.stats.requested_bytes)

refuse-Refused : (p : Pool) → Refused p (refuse (repair p p.writable))
unfolding refuse
refuse-Refused p = ground (arith, repair-Kept p p.writable)

deliver-Refused :
    (p : Pool) (size : ℕ) (answer : Answer)
    → (deliver p size answer).0 ≡ none
    → Refused p (deliver p size answer).1
unfolding deliver
deliver-Refused p size no_page h = refuse-Refused p
deliver-Refused p size bad_alloc h = refuse-Refused p
deliver-Refused p size (served page offset) h = elim (Option-cases page.mapped) [
  | inl unmapped ↦ rw (unmapped, serve) (refuse-Refused p)
  | inr (mapped, e) ↦ unfold serve in absurd (ground (arith))
]

request-Refused :
    (p : Pool) (size : ℕ) (ms : List Move) (answer : Answer)
    → (request p size ms answer).0 ≡ none
    → Refused p (request p size ms answer).1
unfolding request refuse
request-Refused p size ms answer h =
    ground (arith, deliver-Refused (moves p ms) size answer, moves-Kept p ms)

request-disabled :
    (p : Pool) (size : ℕ) (ms : List Move) (answer : Answer)
    → p.requests_disabled ≡ true
    → request p size ms answer ≡ (none, refuse p)
unfolding request
request-disabled p size ms answer h = rw h

called-Refused : (p : Pool) (call : Call) → p.requests_disabled ≡ true → Refused p (called p call)
unfolding called refuse reclaim_completed shut_down clear_cache retain_lists
called-Refused p (ask size ms answer) h = ground (arith, request-disabled p size ms answer h)
called-Refused p (reclaim ms) h =
    ground (
      arith,
      moves-Kept (record p { stats = record p.stats { reclaims = p.stats.reclaims + 1 } }) ms,
    )
called-Refused p (close true) h = ground arith
called-Refused p (close false) h = ground arith

after-Refused :
    (p : Pool) (calls : List Call) → p.requests_disabled ≡ true → Refused p (after p calls)
unfolding after
after-Refused p [] h = (h, refl, refl)
after-Refused p (call ∷ calls) h =
    let first = called-Refused p call h in
    let later = after-Refused (called p call) calls first.0 in
    (later.0, later.1 ∙ first.1, later.2 ∙ first.2)

-- Once a request was not served, then after whatever further calls every request is refused, does
-- nothing but count its failure, and nothing was served in between.
pub request-refused_for_good :
    (p : Pool) (size : ℕ) (ms : List Move) (answer : Answer) (calls : List Call) (size' : ℕ)
    (ms' : List Move) (answer' : Answer)
    → (request p size ms answer).0 ≡ none
    → let q = after (request p size ms answer).1 calls in
      (request q size' ms' answer' ≡ (none, refuse q))
      × (q.stats.requests ≡ p.stats.requests)
      × (q.stats.requested_bytes ≡ p.stats.requested_bytes)
request-refused_for_good p size ms answer calls size' ms' answer' h =
    let first = request-Refused p size ms answer h in
    let later = after-Refused (request p size ms answer).1 calls first.0 in
    (request-disabled _ size' ms' answer' later.0, later.1 ∙ first.1, later.2 ∙ first.2)
