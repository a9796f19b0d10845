-- ===== src/Memo/Translation.antt =====
-- NativeTranslationLookupMemo of native_translation_lookup_memo.h: the last translation that a live
-- shader looked up, by its modification. A pointer is a number, 0 for null; the counters do not
-- wrap in the life of a process.
pub mod Owner
use bolts_rebuilt.Prelude.{ℕ, ◌+◌, Bool, true, false, not, ◌&&◌, ◌||◌, ◌==◌, if◌then◌else◌}

pub record Stats : Type 0 where
  pub hits : ℕ
  pub misses : ℕ
  pub publications : ℕ
  pub invalidations : ℕ

pub record Memo : Type 0 where
  pub modification : ℕ
  pub translation : ℕ

unfoldable pub new_memo : Memo
new_memo = record { modification = 0; translation = 0 }

unfoldable pub find : Memo → ℕ → Stats → ℕ × Stats
find memo modification stats =
    if not (memo.translation == 0) && memo.modification == modification
    then (memo.translation, record stats { hits = stats.hits + 1 })
    else (0, record stats { misses = stats.misses + 1 })

unfoldable pub publish : Memo → ℕ → ℕ → Stats → Memo × Stats
publish memo modification translation stats = if translation == 0 then (memo, stats) else (
  record { modification = modification; translation = translation },
  record stats { publications = stats.publications + 1 },
)

pub reset : Memo → Memo
reset memo = record memo { translation = 0 }

pub invalidate : Memo → ℕ → Bool × Memo
invalidate memo modification =
    if memo.translation == 0 || not (memo.modification == modification)
    then (false, memo)
    else (true, reset memo)
