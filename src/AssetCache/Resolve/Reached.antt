-- ===== src/AssetCache/Resolve/Reached.antt =====
-- Every run of the cache from Initialize, with the writes of other threads before and within the calls
-- of Resolve.
use bolts_rebuilt.Prelude.{
  ℕ, ◌+◌, ◌<◌, ◌^◌, ◌≡◌, ◌⊎◌, refl, Bool, Option, none, some, List, ◌++◌, length, arith,
}
use bolts_rebuilt.AssetTable.Contents.{new_table-find}
use bolts_rebuilt.AssetCache.Pack.{Pack}
use bolts_rebuilt.AssetCache.Resolve.{
  Cache, Mapping, new_cache, no_binding, capacity, probe_limit, generation_bits,
}
use bolts_rebuilt.AssetCache.Resolve.Calls.{invalidate_all, resolve, key_of}
use bolts_rebuilt.AssetCache.Resolve.Stored.{prior-empty}
use bolts_rebuilt.AssetCache.Resolve.Fresh.{
  read_guest, Wrote, Serves, IsCoherent, invalidate_all-IsCoherent,
}
use bolts_rebuilt.AssetCache.Resolve.Served.{resolve-Answers}

-- The states of cache and guest memory that a run reaches.
pub data Reach (pack : Pack) : Cache → (ℕ → ℕ) → Type 0 where
  initialized : (m : ℕ → ℕ) → Reach pack (new_cache pack) m
  writes :
      (c : Cache) (m : ℕ → ℕ) (ds : List (ℕ × ℕ)) (m' : ℕ → ℕ)
      → Reach pack c m
      → Wrote m ds m'
      → c.sequence + length ds < 2 ^ 64
      → Reach pack (invalidate_all c ds) m'
  resolves :
      (c : Cache) (m0 : ℕ → ℕ) (ds1 : List (ℕ × ℕ)) (m1 : ℕ → ℕ) (ds2 : List (ℕ × ℕ)) (m2 : ℕ → ℕ)
      (base size frame : ℕ) (legacy grows : Bool) (copied : Option (List ℕ))
      → Reach pack c m0
      → Wrote m0 ds1 m1
      → Wrote m1 ds2 m2
      → c.sequence + length (ds1 ++ ds2) < 2 ^ 64
      → (copied ≡ none) ⊎ (copied ≡ some (read_guest m1 base size))
      → Reach pack (resolve c base size frame legacy grows copied (ds1 ++ ds2)).1 m2

new_cache-IsCoherent : (pack : Pack) (m : ℕ → ℕ) → IsCoherent (new_cache pack) m
unfolding new_cache
new_cache-IsCoherent pack m =
    let empty : Mapping = record { version = 0; binding = no_binding } in
    let blank = λ (key : ℕ).
      new_table-find capacity probe_limit generation_bits empty key (omega arith) (omega arith) in
    record {
      old = λ p. omega arith;
      table = (blank 0).1;
      fresh = λ legacy base size x inside at.
          cc (prior-empty (new_cache pack) refl (λ key. (blank key).0) legacy (key_of base size));
    }

Reach-IsCoherent : {pack : Pack} {c : Cache} {m : ℕ → ℕ} → Reach pack c m → IsCoherent c m
Reach-IsCoherent (initialized m) = new_cache-IsCoherent _ m
Reach-IsCoherent (writes c m ds m' r w below) =
    invalidate_all-IsCoherent c m ds m' (Reach-IsCoherent r) w below
Reach-IsCoherent
      (resolves c m0 ds1 m1 ds2 m2 base size frame legacy grows copied r w1 w2 below got) =
    (resolve-Answers m0 ds1 m1 ds2 m2 w1 w2 c base size frame legacy grows copied
      (Reach-IsCoherent r) below got).0

-- In every run of the cache, a binding that Resolve answers is disabled, or it is for the requested
-- range and the asset bytes that it names equal the guest bytes of the range at the start of the call
-- or at its end, whatever other threads wrote before and meanwhile, in either mode. Every write is
-- announced by an invalidation of its bytes, and the sequence number stays below 2^64.
pub resolve-Serves :
    (pack : Pack) (c : Cache) (m0 : ℕ → ℕ) (ds1 : List (ℕ × ℕ)) (m1 : ℕ → ℕ) (ds2 : List (ℕ × ℕ))
    (m2 : ℕ → ℕ) (base size frame : ℕ) (legacy grows : Bool) (copied : Option (List ℕ))
    → Reach pack c m0
    → Wrote m0 ds1 m1
    → Wrote m1 ds2 m2
    → c.sequence + length (ds1 ++ ds2) < 2 ^ 64
    → (copied ≡ none) ⊎ (copied ≡ some (read_guest m1 base size))
    → let b = (resolve c base size frame legacy grows copied (ds1 ++ ds2)).0 in
      Serves c m0 base size b ⊎ Serves c m2 base size b
resolve-Serves pack c m0 ds1 m1 ds2 m2 base size frame legacy grows copied r w1 w2 below got =
    (resolve-Answers m0 ds1 m1 ds2 m2 w1 w2 c base size frame legacy grows copied
      (Reach-IsCoherent r) below got).1
