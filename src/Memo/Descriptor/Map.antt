-- ===== src/Memo/Descriptor/Map.antt =====
-- The memo beside the texture's map from keys to descriptor indices.
use bolts_rebuilt.Prelude.{ℕ, ◌≡◌, false, ◌==◌, if◌then◌else◌, update, arith}
use bolts_rebuilt.Memo.Descriptor.{Memo, Stats, find, publish, no_index}

pub record Views : Type 0 where
  pub memo : Memo
  pub indices : ℕ → ℕ
  pub stats : Stats

-- One lookup, with the index that a creation would give (`no_index` when it fails): the memo, then
-- the map, then the creation, and what was obtained is published.
pub lookup : Views → ℕ → ℕ → ℕ × Views
lookup v key created =
    let (hit, index, stats) = find v.memo key no_index v.stats in
    let held = v.indices key in
    let obtained = if held == no_index then created else held in
    let (memo, stats') = publish v.memo key obtained stats in
    if hit
    then (index, record v { stats = stats })
    else (obtained, record { memo = memo; indices = update v.indices key obtained; stats = stats' })

unfoldable pub Agrees : Views → Type 0
Agrees v = (v.memo.index == no_index) ≡ false → v.indices v.memo.key ≡ v.memo.index

-- The map by itself, without the memo.
pub lookup_map : (ℕ → ℕ) → ℕ → ℕ → ℕ
lookup_map indices key created = if indices key == no_index then created else indices key

-- A lookup through the memo answers what the map alone answers, and leaves the map as that lookup
-- leaves it at every key, when the memo agrees with the map; it agrees again afterwards.
pub lookup_lem :
    (v : Views) (key created other : ℕ)
    → Agrees v
    → ((lookup v key created).0 ≡ lookup_map v.indices key created)
      × ((lookup v key created).1.indices other
          ≡ update v.indices key (lookup_map v.indices key created) other)
      × Agrees (lookup v key created).1
unfolding Agrees lookup lookup_map find publish
lookup_lem v key created other agrees = ground arith
