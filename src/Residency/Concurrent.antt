-- ===== src/Residency/Concurrent.antt =====
-- Contains reads its words one by one, while other threads may clear bits between two reads.
use bolts_rebuilt.Prelude.{
  ℕ, zero, suc, ◌+◌, ◌/◌, ◌^◌, ◌≤◌, ◌<◌, bit_and, ◌≡◌, refl, Bool, true, ◌&&◌, arith, ◌==◌,
}
use bolts_rebuilt.Pages.{page_mask}
use bolts_rebuilt.Residency.{
  Mirror, IsValid, page_count, word_at, resident, clear_word, clear_pages, reset, disable,
  words_cover,
}
use bolts_rebuilt.Residency.Words.{
  clear_word-IsValid, clear_pages-IsValid, reset-IsValid, resident-clear_word, resident-clear_pages,
  resident-reset, disable-IsValid, resident-disable,
}
use bolts_rebuilt.Residency.Scan.{word_sound, word_complete}

-- The calls that threads other than the reader make.
pub data Clears (m : Mirror) : Mirror → Type 0 where
  same : Clears m m
  word_cleared :
      {n : Mirror} (word mask : ℕ) → mask < 2 ^ 64 → Clears m n → Clears m (clear_word n word mask)
  pages_cleared : {n : Mirror} (first last : ℕ) → Clears m n → Clears m (clear_pages n first last)
  reset_after : {n : Mirror} → Clears m n → Clears m (reset n)
  disabled_after : {n : Mirror} → Clears m n → Clears m (disable n)

Clears-IsValid : {m n : Mirror} → Clears m n → IsValid m → IsValid n
Clears-IsValid same v = v
Clears-IsValid (word_cleared {n} word mask h c) v =
    clear_word-IsValid n word mask (Clears-IsValid c v)
Clears-IsValid (pages_cleared {n} first last c) v =
    clear_pages-IsValid n first last (Clears-IsValid c v)
Clears-IsValid (reset_after {n} c) v = reset-IsValid n
Clears-IsValid (disabled_after {n} c) v = disable-IsValid n

resident_before :
    {m n : Mirror} (page : ℕ)
    → page < page_count
    → IsValid m
    → Clears m n
    → resident n page ≡ true
    → resident m page ≡ true
resident_before page h v same r = r
resident_before page h v (word_cleared {n} word mask k c) r =
    resident_before page h v c
      (ground (arith, resident-clear_word n word mask page k (Clears-IsValid c v)))
resident_before page h v (pages_cleared {n} first last c) r =
    resident_before page h v c
      (ground (arith, resident-clear_pages n first last page h (Clears-IsValid c v)))
resident_before page h v (reset_after {n} c) r =
    resident_before page h v c (ground (arith, resident-reset n page))
resident_before page h v (disabled_after {n} c) r =
    resident_before page h v c (ground (arith, resident-disable n page))

-- The loop over the words of one range, where the word `w` is read from the state `seen w`.
unfoldable pub interleaved_cover : (ℕ → Mirror) → ℕ → ℕ → ℕ → ℕ → Bool
interleaved_cover seen first last zero word = true
interleaved_cover seen first last (suc rounds) word =
    let mask = page_mask word first last in
    (bit_and (word_at (seen word) word) mask == mask)
    && interleaved_cover seen first last rounds (word + 1)

-- Let the mirror be valid, `last` a page of it, and the words read lie between those of `first`
-- and `last`. If a scan finds every word covered, in states that only clearing calls separate
-- from the state of its first read, then all of them were covered in that first state: the scan
-- is atomic.
pub interleaved_cover_atomic :
    (m : Mirror) (seen : ℕ → Mirror) (first last rounds word : ℕ)
    → IsValid m
    → last < page_count
    → first / 64 ≤ word
    → word + rounds ≤ last / 64 + 1
    → ((w : ℕ) → Clears m (seen w))
    → interleaved_cover seen first last rounds word ≡ true
    → words_cover m first last rounds word ≡ true
unfolding interleaved_cover words_cover
interleaved_cover_atomic m seen first last zero word v fits low high later e = refl
interleaved_cover_atomic m seen first last (suc rounds) word v fits low high later e = ground (
  arith,
  interleaved_cover_atomic m seen first last rounds (word + 1) v fits (omega arith) (omega arith)
      later,
  word_complete m first last word low (omega arith) λ page same p q.
      resident_before page (omega arith) v (later word)
        (word_sound (seen word) first last word page (ground arith) same p q),
)
