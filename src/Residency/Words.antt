-- ===== src/Residency/Words.antt =====
-- What each call does to the bit of each page.
use mathlib.Core.Bool.{true}
use bolts_rebuilt.Prelude.{
  ℕ, zero, suc, ◌+◌, ◌-◌, ◌/◌, ◌%◌, ◌^◌, ◌≤◌, ◌<◌, bit_and, bit_or, ◌≡◌, ◌∙◌, ap, Bool, false, not,
  ◌&&◌, ◌||◌, arith, ltb, leb, ◌==◌, set, get_or-set, length-set, get_or-replicate,
  length-replicate,
}
use bolts_rebuilt.Prelude.Bits.{bit, bit-zero, bit-bit_and, bit-bit_or, bit_and-le, bit_or-lt}
use bolts_rebuilt.Prelude.Bits.Words.{complement, bit-complement}
use bolts_rebuilt.Pages.{page_mask, bit-page_mask, page_mask-lt}
use bolts_rebuilt.Residency.{
  Mirror, IsValid, word_count, page_count, word_at, resident, fresh, promote_valid_word, clear_word,
  clear_words, clear_pages, reset, disable, words_between,
}

pub fresh-IsValid : IsValid fresh
unfolding fresh
fresh-IsValid = record {
  sized = length-replicate {A = ℕ} word_count 0;
  fits = λ word. rw (get_or-replicate {A = ℕ} word_count word 0) (omega arith);
}

pub resident-fresh : (page : ℕ) → resident fresh page ≡ false
unfolding fresh
resident-fresh page = rw (get_or-replicate {A = ℕ} word_count (page / 64) 0) (bit-zero (page % 64))

pub resident-reset : (m : Mirror) (page : ℕ) → resident (reset m) page ≡ false
unfolding reset
resident-reset m page =
    rw (get_or-replicate {A = ℕ} word_count (page / 64) 0) (bit-zero (page % 64))

pub reset-IsValid : (m : Mirror) → IsValid (reset m)
unfolding reset
reset-IsValid m = record {
  sized = length-replicate {A = ℕ} word_count 0;
  fits = λ word. rw (get_or-replicate {A = ℕ} word_count word 0) (omega arith);
}

set-IsValid :
    (m : Mirror) (word value : ℕ)
    → value < 2 ^ 64
    → IsValid m
    → IsValid (record m { words = set m.words word value })
set-IsValid m word value h v = record {
  sized = length-set m.words word value ∙ v.sized;
  fits = λ w. ground (arith, get_or-set m.words word w value 0, v.fits w);
}

pub promote-IsValid :
    (m : Mirror) (word live mask : ℕ)
    → live < 2 ^ 64
    → IsValid m
    → IsValid (promote_valid_word m word live mask).0
unfolding promote_valid_word
promote-IsValid m word live mask h v = ground (
  arith,
  v,
  set-IsValid m word (bit_or (word_at m word) (bit_and live mask))
      (bit_or-lt 64 _ _ (v.fits word) (omega (arith, bit_and-le live mask))) v,
)

pub clear_word-IsValid : (m : Mirror) (word mask : ℕ) → IsValid m → IsValid (clear_word m word mask)
unfolding clear_word
clear_word-IsValid m word mask v = ground (
  arith,
  v,
  set-IsValid m word (bit_and (word_at m word) (complement 64 mask))
      (omega (arith, v.fits word, bit_and-le (word_at m word) (complement 64 mask))) v,
)

-- A promotion sets the bits of the requested pages of its word that are live, and no other bit.
pub resident-promote :
    (m : Mirror) (word live mask page : ℕ)
    → IsValid m
    → resident (promote_valid_word m word live mask).0 page ≡ (
        resident m page
        || (not m.disabled
            && ltb word word_count
            && word == page / 64
            && bit live (page % 64)
            && bit mask (page % 64)))
unfolding promote_valid_word
resident-promote m word live mask page v = ground (
  arith,
  v.sized,
  get_or-set m.words word (page / 64) (bit_or (word_at m word) (bit_and live mask)) 0,
  bit-bit_or (word_at m word) (bit_and live mask) (page % 64),
  bit-bit_and live mask (page % 64),
  ap (λ y. bit y (page % 64)) {x = bit_and live mask} {y = 0},
  bit-zero (page % 64),
)

pub resident-clear_word :
    (m : Mirror) (word mask page : ℕ)
    → mask < 2 ^ 64
    → IsValid m
    → resident (clear_word m word mask) page
      ≡ (resident m page && not (ltb word word_count && word == page / 64 && bit mask (page % 64)))
unfolding clear_word
resident-clear_word m word mask page h v = ground (
  arith,
  v.sized,
  get_or-set m.words word (page / 64) (bit_and (word_at m word) (complement 64 mask)) 0,
  bit-bit_and (word_at m word) (complement 64 mask) (page % 64),
  bit-complement 64 mask (page % 64) h,
)

pub clear_words-IsValid :
    (first last rounds word : ℕ) (m : Mirror)
    → IsValid m
    → IsValid (clear_words first last rounds word m)
unfolding clear_words
clear_words-IsValid first last zero word m v = v
clear_words-IsValid first last (suc rounds) word m v =
    clear_words-IsValid first last rounds (word + 1) _
      (clear_word-IsValid m word (page_mask word first last) v)

pub clear_pages-IsValid :
    (m : Mirror) (first last : ℕ) → IsValid m → IsValid (clear_pages m first last)
unfolding clear_pages
clear_pages-IsValid m first last v = ground (
  arith,
  v,
  clear_words-IsValid first (page_count - 1) (words_between first (page_count - 1)) (first / 64) m
      v,
  clear_words-IsValid first last (words_between first last) (first / 64) m v,
)

abbrev cleared : ℕ → ℕ → ℕ → ℕ → ℕ → Bool
cleared first last rounds word page =
    leb word (page / 64) && ltb (page / 64) (word + rounds) && leb first page && leb page last

resident-clear_words :
    (first last rounds word : ℕ) (m : Mirror) (page : ℕ)
    → last < page_count
    → first / 64 ≤ word
    → word + rounds ≤ last / 64 + 1
    → IsValid m
    → resident (clear_words first last rounds word m) page
      ≡ (resident m page && not (cleared first last rounds word page))
unfolding clear_words
resident-clear_words first last zero word m page fits low high v = ground arith
resident-clear_words first last (suc rounds) word m page fits low high v = ground (
  arith,
  resident-clear_words first last rounds (word + 1) (clear_word m word (page_mask word first last))
      page fits (omega arith) (omega arith)
      (clear_word-IsValid m word (page_mask word first last) v),
  resident-clear_word m word (page_mask word first last) page (page_mask-lt word first last) v,
  bit-page_mask word first last (page % 64) (omega arith) low (omega arith),
)

-- Clearing pages takes away exactly the bits of the pages between its two ends.
pub resident-clear_pages :
    (m : Mirror) (first last page : ℕ)
    → page < page_count
    → IsValid m
    → resident (clear_pages m first last) page
      ≡ (resident m page && not (leb first page && leb page last))
unfolding clear_pages
resident-clear_pages m first last page h v = ground (
  arith,
  resident-clear_words first (page_count - 1) (words_between first (page_count - 1)) (first / 64) m
      page,
  resident-clear_words first last (words_between first last) (first / 64) m page,
  v,
)

pub disable-IsValid : (m : Mirror) → IsValid (disable m)
unfolding disable
disable-IsValid m = reset-IsValid (record m { disabled = true })

pub resident-disable : (m : Mirror) (page : ℕ) → resident (disable m) page ≡ false
unfolding disable
resident-disable m page = resident-reset (record m { disabled = true }) page
