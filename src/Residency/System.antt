-- ===== src/Residency/System.antt =====
-- The mirror beside the validity words of the SDK's shared memory, which it must never claim more
-- than. A step is one call under the lock that guards those words, or a call that only clears.
use bolts_rebuilt.Prelude.{
  ℕ, ◌/◌, ◌%◌, ◌^◌, ◌≤◌, ◌<◌, ◌≡◌, sym, ◌∙◌, Bool, true, false, ◌&&◌, List, [], ◌∷◌, All, Option,
  none, some, arith, leb,
}
use mathlib.Core.Bool.{false≢true}
use bolts_rebuilt.Prelude.Bits.{bit}
use bolts_rebuilt.Residency.{
  Mirror, IsValid, page_count, resident, fresh, promote_valid_word, clear_pages, reset, disable,
  contains, first_page, last_page,
}
use bolts_rebuilt.Residency.Words.{
  fresh-IsValid, reset-IsValid, promote-IsValid, clear_pages-IsValid, resident-promote,
  resident-clear_pages, resident-reset, resident-fresh, disable-IsValid, resident-disable,
}
use bolts_rebuilt.Residency.Scan.{contains_iff, Fits, Held}

-- `valid` is the live validity word of each block of 64 pages, `clearing` the pages that the holder
-- of the lock has cleared in the mirror and not yet in those words.
pub record System : Type 0 where
  pub mirror : Mirror
  pub valid : ℕ → ℕ
  pub clearing : Option (ℕ × ℕ)

abbrev pub live : System → ℕ → Bool
live s page = bit (s.valid (page / 64)) (page % 64)

pub data Step (s : System) : System → Type 0 where
  -- RequestRanges under the lock promotes what it finds valid in one word.
  promote :
      (word mask : ℕ)
      → s.clearing ≡ none
      → Step s (record s { mirror = (promote_valid_word s.mirror word (s.valid word) mask).0 })
  -- MakeRangeValid and the like: pages become valid, and the mirror does not hear of it.
  validate :
      (valid : ℕ → ℕ)
      → s.clearing ≡ none
      → ((word : ℕ) → valid word < 2 ^ 64)
      → ((word i : ℕ) → bit (s.valid word) i ≡ true → bit (valid word) i ≡ true)
      → Step s (record s { valid = valid })
  -- An invalidation under the lock clears the mirror first,
  begin_clear :
      (first last : ℕ)
      → s.clearing ≡ none
      → Step s
          (record s { mirror = clear_pages s.mirror first last; clearing = some (first, last) })
  -- and the live words after it, in these pages alone.
  finish_clear :
      (first last : ℕ) (valid : ℕ → ℕ)
      → s.clearing ≡ some (first, last)
      → ((word : ℕ) → valid word < 2 ^ 64)
      → ((page : ℕ)
          → (leb first page && leb page last) ≡ false
          → bit (valid (page / 64)) (page % 64) ≡ live s page)
      → Step s (record s { valid = valid; clearing = none })
  resets : Step s (record s { mirror = reset s.mirror })
  disables : Step s (record s { mirror = disable s.mirror })

pub data Reach : System → Type 0 where
  start :
      (valid : ℕ → ℕ)
      → ((word : ℕ) → valid word < 2 ^ 64)
      → Reach (record { mirror = fresh; valid = valid; clearing = none })
  next : {s t : System} → Reach s → Step s t → Reach t

pub record Inv (s : System) : Type 0 where
  pub shape : IsValid s.mirror
  pub words : (word : ℕ) → s.valid word < 2 ^ 64
  pub honest : (page : ℕ) → page < page_count → resident s.mirror page ≡ true → live s page ≡ true
  pub apart :
      (first last page : ℕ)
      → s.clearing ≡ some (first, last)
      → page < page_count
      → (leb first page && leb page last) ≡ true
      → resident s.mirror page ≡ false

pub Step-Inv : {s t : System} → Step s t → Inv s → Inv t
Step-Inv {s} (promote word mask idle) v = record {
  shape = promote-IsValid s.mirror word (s.valid word) mask (v.words word) v.shape;
  words = v.words;
  honest = λ page h r.
      ground
        (arith, v.honest page h, resident-promote s.mirror word (s.valid word) mask page v.shape);
  apart = λ first last page e h k. absurd (cc);
}
Step-Inv (validate valid idle fits grows) v = record {
  shape = v.shape;
  words = fits;
  honest = λ page h r. grows (page / 64) (page % 64) (v.honest page h r);
  apart = v.apart;
}
Step-Inv {s} (begin_clear first last idle) v = record {
  shape = clear_pages-IsValid s.mirror first last v.shape;
  words = v.words;
  honest = λ page h r.
      ground (arith, v.honest page h, resident-clear_pages s.mirror first last page h v.shape);
  apart = λ a b page e h k. ground (arith, resident-clear_pages s.mirror first last page h v.shape);
}
Step-Inv {s} (finish_clear first last valid e fits keeps) v = record {
  shape = v.shape;
  words = fits;
  honest = λ page h r. ground (arith, v.honest page h r, v.apart first last page e h, keeps page);
  apart = λ a b page q h k. absurd (cc);
}
Step-Inv {s} resets v = record {
  shape = reset-IsValid s.mirror;
  words = v.words;
  honest = λ page h r. ground (arith, resident-reset s.mirror page);
  apart = λ a b page q h k. resident-reset s.mirror page;
}
Step-Inv {s} disables v = record {
  shape = disable-IsValid s.mirror;
  words = v.words;
  honest = λ page h r. ground (arith, resident-disable s.mirror page);
  apart = λ a b page q h k. resident-disable s.mirror page;
}

pub Reach-Inv : {s : System} → Reach s → Inv s
Reach-Inv (start valid fits) = record {
  shape = fresh-IsValid;
  words = fits;
  honest = λ page h r. absurd (false≢true (sym (resident-fresh page) ∙ r));
  apart = λ first last page e h k. absurd (cc);
}
Reach-Inv (next r st) = Step-Inv st (Reach-Inv r)

-- The live pages of a range.
abbrev pub Live : System → ℕ × ℕ → Type 0
Live s range = (page : ℕ) → first_page range ≤ page → page ≤ last_page range → live s page ≡ true

Held-Live :
    {s : System}
    → Inv s
    → (ranges : List (ℕ × ℕ)) → All Fits ranges
    → All (Held s.mirror) ranges
    → All (Live s) ranges
Held-Live v [] fits held = tt
Held-Live v (range ∷ rest) fits held = (
  (λ page p q. v.honest page (omega (arith, fits.0)) (held.0 page p q)),
  Held-Live v rest fits.1 held.1,
)

-- In every state that the calls can reach, a request that the mirror answers is one whose pages
-- are all valid in shared memory.
pub contains-Live :
    {s : System} (ranges : List (ℕ × ℕ))
    → Reach s
    → contains s.mirror ranges ≡ true
    → All (Live s) ranges
contains-Live {s} ranges r e =
    let (_, _, fits, held) = (contains_iff s.mirror ranges).0 e in
    Held-Live (Reach-Inv r) ranges fits held
