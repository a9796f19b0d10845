-- ===== src/Memo/ReadyPair.antt =====
-- NativeReadyPairMemo of native_ready_pair_memo.h: the last shader pair that the library accepted,
-- by its two hashes. A pointer is a number, 0 for null.
pub mod Library
use bolts_rebuilt.Prelude.{ℕ, ◌+◌, not, ◌&&◌, ◌==◌, if◌then◌else◌}

pub record Stats : Type 0 where
  pub hits : ℕ
  pub misses : ℕ
  pub publications : ℕ
  pub resets : ℕ

pub record Entry : Type 0 where
  pub vertex_hash : ℕ
  pub pixel_hash : ℕ
  pub pair : ℕ

pub record Memo : Type 0 where
  pub entry : Entry
  pub stats : Stats

abbrev pub empty_entry : Entry
empty_entry = record { vertex_hash = 0; pixel_hash = 0; pair = 0 }

pub new_memo : Memo
new_memo = record {
  entry = empty_entry;
  stats = record { hits = 0; misses = 0; publications = 0; resets = 0 };
}

-- Both move operations between two objects: the moved-to memo, then the moved-from one.
pub move : Memo → Memo × Memo
move other = (other, record other { entry = empty_entry })

pub find : Memo → ℕ → ℕ → ℕ × Memo
find memo vertex_hash pixel_hash =
    if not (memo.entry.pair == 0)
      && memo.entry.vertex_hash == vertex_hash
      && memo.entry.pixel_hash == pixel_hash
    then (memo.entry.pair, record memo { stats = record memo.stats { hits = memo.stats.hits + 1 } })
    else (0, record memo { stats = record memo.stats { misses = memo.stats.misses + 1 } })

pub publish : Memo → ℕ → ℕ → ℕ → Memo
publish memo vertex_hash pixel_hash pair = if pair == 0 then memo else record {
  entry = record { vertex_hash = vertex_hash; pixel_hash = pixel_hash; pair = pair };
  stats = record memo.stats { publications = memo.stats.publications + 1 };
}

pub reset : Memo → Memo
reset memo = record {
  entry = empty_entry;
  stats = record memo.stats { resets = memo.stats.resets + 1 };
}
