-- ===== src/Memo/Descriptor.antt =====
-- NativeTextureDescriptorMemo of native_texture_descriptor_memo.h: the last descriptor index that a
-- live texture looked up in its append-only map of views.
pub mod Map
use bolts_rebuilt.Prelude.{
  ℕ, ◌+◌, Bool, true, false, not, ◌&&◌, ◌==◌, if◌then◌else◌, Option, none, some,
}

pub record Stats : Type 0 where
  pub hits : ℕ
  pub misses : ℕ
  pub publications : ℕ
  pub failed_lookups : ℕ

pub record Memo : Type 0 where
  pub key : ℕ
  pub index : ℕ

-- UINT32_MAX: no index.
abbrev pub no_index : ℕ
no_index = 0xFFFFFFFF

pub new_memo : Memo
new_memo = record { key = 0; index = no_index }

-- `index_out` is the caller's variable, written on a hit only.
pub find : Memo → ℕ → ℕ → Stats → Bool × ℕ × Stats
find memo key index_out stats =
    if not (memo.index == no_index) && memo.key == key
    then (true, memo.index, record stats { hits = stats.hits + 1 })
    else (false, index_out, record stats { misses = stats.misses + 1 })

pub publish : Memo → ℕ → ℕ → Stats → Memo × Stats
publish memo key index stats = if index == no_index then (memo, stats) else (
  record { key = key; index = index },
  record stats { publications = stats.publications + 1 },
)

pub reset : Memo → Memo
reset memo = record memo { index = no_index }
