-- ===== src/Residency.antt =====
-- src/gpu/native/native_shared_residency_mirror.h, NativeSharedResidencyMirror: one bit for each
-- 4 KiB page of shared memory, in 2048 words of 64. The words are atomic in the source; a call here
-- is one atomic step, and `Residency.System` interleaves the calls of the threads.
pub mod Words
pub mod Scan
pub mod System
pub mod Concurrent
use bolts_rebuilt.Prelude.{
  ℕ, zero, suc, ◌+◌, ◌-◌, ◌*◌, ◌/◌, ◌%◌, ◌^◌, ◌≤◌, ◌<◌, bit_and, bit_or, ◌≡◌, refl, Bool, true,
  false, not, ◌&&◌, ◌||◌, List, [], ◌∷◌, arith, ltb, leb, ◌==◌, if◌then◌else◌, get_or, set, length,
  replicate,
}
use bolts_rebuilt.Prelude.Bits.{bit}
use bolts_rebuilt.Prelude.Bits.Words.{shr, complement}
use bolts_rebuilt.Pages.{page_mask}
use bolts_rebuilt.Pages.Count.{popcount}

abbrev pub page_log2 : ℕ
page_log2 = 12

abbrev pub buffer_bytes : ℕ
buffer_bytes = 2 ^ 29

abbrev pub page_count : ℕ
page_count = 131072

abbrev pub word_count : ℕ
word_count = 2048

pub record Mirror : Type 0 where
  pub words : List ℕ
  pub disabled : Bool

-- The constructor.
unfoldable pub fresh : Mirror
fresh = record { words = replicate word_count 0; disabled = false }

abbrev pub word_at : Mirror → ℕ → ℕ
word_at m word = get_or m.words word 0

-- The first loop of Contains: a range is a start and a count of bytes.
unfoldable pub ranges_fit : List (ℕ × ℕ) → Bool
ranges_fit [] = true
ranges_fit ((start, bytes) ∷ rest) =
    not (bytes == 0 || leb buffer_bytes start || ltb (buffer_bytes - start) bytes)
    && ranges_fit rest

-- `rounds` words from `word` on.
unfoldable pub words_cover : Mirror → ℕ → ℕ → ℕ → ℕ → Bool
words_cover m first last zero word = true
words_cover m first last (suc rounds) word =
    let mask = page_mask word first last in
    (bit_and (word_at m word) mask == mask) && words_cover m first last rounds (word + 1)

abbrev pub first_page : ℕ × ℕ → ℕ
first_page range = shr (range.0) page_log2

abbrev pub last_page : ℕ × ℕ → ℕ
last_page range = shr (range.0 + range.1 - 1) page_log2

abbrev pub words_between : ℕ → ℕ → ℕ
words_between first last = last / 64 + 1 - first / 64

-- The second loop of Contains.
unfoldable pub ranges_covered : Mirror → List (ℕ × ℕ) → Bool
ranges_covered m [] = true
ranges_covered m (range ∷ rest) =
    words_cover m (first_page range) (last_page range)
      (words_between (first_page range) (last_page range)) (first_page range / 64)
    && ranges_covered m rest

abbrev is_empty : List (ℕ × ℕ) → Bool
is_empty [] = true
is_empty (range ∷ rest) = false

unfoldable pub contains : Mirror → List (ℕ × ℕ) → Bool
contains m ranges =
    if is_empty ranges || m.disabled
    then false
    else if ranges_fit ranges
    then ranges_covered m ranges
    else false

-- PromoteValidWord, with the count of pages that it newly promotes.
unfoldable pub promote_valid_word : Mirror → ℕ → ℕ → ℕ → Mirror × ℕ
promote_valid_word m word live_valid requested_mask =
    let bits = bit_and live_valid requested_mask in
    if leb word_count word || m.disabled then (m, 0) else if bits == 0 then (m, 0) else (
      record m { words = set m.words word (bit_or (word_at m word) bits) },
      popcount 64 (bit_and bits (complement 64 (word_at m word))),
    )

pub clear_word : Mirror → ℕ → ℕ → Mirror
clear_word m word mask =
    if ltb word word_count
    then record m { words = set m.words word (bit_and (word_at m word) (complement 64 mask)) }
    else m

pub clear_words : ℕ → ℕ → ℕ → ℕ → Mirror → Mirror
clear_words first last zero word m = m
clear_words first last (suc rounds) word m =
    clear_words first last rounds (word + 1) (clear_word m word (page_mask word first last))

pub clear_pages : Mirror → ℕ → ℕ → Mirror
clear_pages m first last =
    let end = if leb page_count last then page_count - 1 else last in
    if ltb last first || leb page_count first
    then m
    else clear_words first end (words_between first end) (first / 64) m

pub reset : Mirror → Mirror
reset m = record m { words = replicate word_count 0 }

pub disable : Mirror → Mirror
unfolding reset
disable m = reset (record m { disabled = true })

-- The page's bit.
abbrev pub resident : Mirror → ℕ → Bool
resident m page = bit (word_at m (page / 64)) (page % 64)

-- The array has its 2048 words, each of 64 digits.
pub record IsValid (m : Mirror) : Type 0 where
  pub sized : length m.words ≡ word_count
  pub fits : (word : ℕ) → word_at m word < 2 ^ 64
