-- ===== src/Residency/Scan.antt =====
-- What Contains answers, page by page.
use bolts_rebuilt.Prelude.{
  ℕ, zero, suc, ◌+◌, ◌*◌, ◌/◌, ◌%◌, ◌≤◌, ◌<◌, bit_and, ◌≡◌, refl, ◌≢◌, ◌↔◌, true, false, List, [],
  ◌∷◌, All, arith, ◌==◌, ==_iff,
}
use bolts_rebuilt.Prelude.Bits.Masks.{bit_of_covers, covers_of_bits}
use bolts_rebuilt.Pages.{page_mask, bit-page_mask, page_mask-lt}
use bolts_rebuilt.Residency.{
  Mirror, buffer_bytes, word_at, resident, ranges_fit, words_cover, ranges_covered, contains,
  first_page, last_page, words_between,
}

-- A range of bytes that is not empty and ends inside the buffer.
abbrev pub Fits : ℕ × ℕ → Type 0
Fits range = (0 < range.1) × (range.0 + range.1 ≤ buffer_bytes)

-- Every page of the range has its bit.
abbrev pub Held : Mirror → ℕ × ℕ → Type 0
Held m range =
    (page : ℕ) → first_page range ≤ page → page ≤ last_page range → resident m page ≡ true

pub word_sound :
    (m : Mirror) (first last word page : ℕ)
    → (bit_and (word_at m word) (page_mask word first last) == page_mask word first last) ≡ true
    → page / 64 ≡ word
    → first ≤ page
    → page ≤ last
    → resident m page ≡ true
word_sound m first last word page e same low high = ground (
  arith,
  bit_of_covers (word_at m word) (page_mask word first last) (page % 64),
  bit-page_mask word first last (page % 64),
)

pub words_cover_sound :
    (m : Mirror) (first last rounds word page : ℕ)
    → words_cover m first last rounds word ≡ true
    → word ≤ page / 64
    → page / 64 < word + rounds
    → first ≤ page
    → page ≤ last
    → resident m page ≡ true
unfolding words_cover
words_cover_sound m first last zero word page e p q low high = absurd (omega arith)
words_cover_sound m first last (suc rounds) word page e p q low high = ground (
  arith,
  word_sound m first last word page,
  words_cover_sound m first last rounds (word + 1) page,
)

page_word : (word i : ℕ) → i < 64 → (64 * word + i) / 64 ≡ word
page_word word i h = omega arith

page_digit : (word i : ℕ) → i < 64 → (64 * word + i) % 64 ≡ i
page_digit word i h = omega arith

pub word_complete :
    (m : Mirror) (first last word : ℕ)
    → first / 64 ≤ word
    → word ≤ last / 64
    → ((page : ℕ) → page / 64 ≡ word → first ≤ page → page ≤ last → resident m page ≡ true)
    → (bit_and (word_at m word) (page_mask word first last) == page_mask word first last) ≡ true
word_complete m first last word p q all = (==_iff _ _).1 (
    covers_of_bits 64 (word_at m word) (page_mask word first last) (page_mask-lt word first last)
      λ i below in_mask. ground (
        arith,
        bit-page_mask word first last i below p q,
        all (64 * word + i) (page_word word i below),
        page_word word i below,
        page_digit word i below,
      ))

words_cover_complete :
    (m : Mirror) (first last rounds word : ℕ)
    → first / 64 ≤ word
    → word + rounds ≤ last / 64 + 1
    → ((page : ℕ) → first ≤ page → page ≤ last → resident m page ≡ true)
    → words_cover m first last rounds word ≡ true
unfolding words_cover
words_cover_complete m first last zero word p q all = refl
words_cover_complete m first last (suc rounds) word p q all = ground (
  arith,
  word_complete m first last word p (omega arith) (λ page _. all page),
  words_cover_complete m first last rounds (word + 1) (omega arith) (omega arith) all,
)

ranges_fit_iff : (ranges : List (ℕ × ℕ)) → (ranges_fit ranges ≡ true) ↔ All Fits ranges
unfolding ranges_fit
ranges_fit_iff [] = ((λ _. tt), (λ _. refl))
ranges_fit_iff ((start, bytes) ∷ rest) =
    let (sound, complete) = ranges_fit_iff rest in
    ((λ h. ground (arith, sound)), (λ h. ground (arith, complete)))

ranges_covered_iff :
    (m : Mirror) (ranges : List (ℕ × ℕ)) → (ranges_covered m ranges ≡ true) ↔ All (Held m) ranges
unfolding ranges_covered
ranges_covered_iff m [] = ((λ _. tt), (λ _. refl))
ranges_covered_iff m (range ∷ rest) =
    let (sound, complete) = ranges_covered_iff m rest in
    (
      (λ h. (
        (λ page p q.
            words_cover_sound m (first_page range) (last_page range)
              (words_between (first_page range) (last_page range)) (first_page range / 64) page
              (ground arith) (omega arith) (omega arith) p q),
        sound (ground arith),
      )),
      (λ h. ground (
        arith,
        words_cover_complete m (first_page range) (last_page range)
            (words_between (first_page range) (last_page range)) (first_page range / 64)
            (omega arith) (omega arith) h.0,
        complete h.1,
      )),
    )

-- Contains says yes exactly for an enabled mirror and a list of ranges, not empty, of which each
-- lies in the buffer, holds a byte, and has the bit of each of its pages.
pub contains_iff :
    (m : Mirror) (ranges : List (ℕ × ℕ))
    → (contains m ranges ≡ true)
      ↔ ((ranges ≢ []) × (m.disabled ≡ false) × All Fits ranges × All (Held m) ranges)
unfolding contains
contains_iff m [] = ((λ h. cc), (λ h. absurd (h.0 refl)))
contains_iff m (range ∷ rest) = (
  (λ h. (
    (λ e. cc),
    ground arith,
    (ranges_fit_iff (range ∷ rest)).0 (ground arith),
    (ranges_covered_iff m (range ∷ rest)).0 (ground arith),
  )),
  (λ h.
      ground (
        arith,
        (ranges_fit_iff (range ∷ rest)).1 h.2,
        (ranges_covered_iff m (range ∷ rest)).1 h.3,
      )),
)
