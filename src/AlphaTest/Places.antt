-- ===== src/AlphaTest/Places.antt =====
-- Where a text stands in another, and where it stands alone on its line, by positions.
use bolts_rebuilt.Prelude.{
  ℕ, zero, suc, ◌+◌, ◌-◌, ◌≤◌, ◌<◌, ◌≡◌, ◌⊎◌, inl, inr, refl, ap, sym, ◌∙◌, true, false, not, ◌&&◌,
  ◌||◌, Bool, Bool-cases, ==_iff, List, [], ◌∷◌, ltb, ◌==◌, if◌then◌else◌, take, drop, get_or, none,
  some, arith, length,
}
use bolts_rebuilt.AlphaTest.{
  statement, starts_with, find_from, is_blank, line_before, at_line_start, at_line_end,
}

pub starts_with-take :
    (part text : List ℕ) → starts_with part text ≡ true → take (length part) text ≡ part
unfolding starts_with
starts_with-take [] text h = refl
starts_with-take (c ∷ part) [] h = cc
starts_with-take (c ∷ part) (d ∷ text) h =
    let same : c ≡ d = ground arith in let rest = starts_with-take part text (ground arith) in cc

pub take-starts_with :
    (part text : List ℕ) → take (length part) text ≡ part → starts_with part text ≡ true
unfolding starts_with
take-starts_with [] text h = refl
take-starts_with (c ∷ part) [] h = cc
take-starts_with (c ∷ part) (d ∷ text) h =
    let same : d ≡ c = cc in let rest = take-starts_with part text cc in ground arith

-- Where find finds nothing, the text stands nowhere.
pub find_from-none :
    (text part : List ℕ) (index n : ℕ)
    → find_from text part index ≡ none
    → starts_with part (drop n text) ≡ false
unfolding find_from
find_from-none [] part index zero h = ground arith
find_from-none [] part index (suc n) h = ground arith
find_from-none (c ∷ text) part index zero h = ground arith
find_from-none (c ∷ text) part index (suc n) h =
    find_from-none text part (index + 1) n (ground arith)

none_before :
    (part : List ℕ) (c : ℕ) (text : List ℕ) (n : ℕ)
    → starts_with part (c ∷ text) ≡ false
    → ((m : ℕ) → m < n → starts_with part (drop m text) ≡ false)
    → (m : ℕ) → m < suc n
    → starts_with part (drop m (c ∷ text)) ≡ false
none_before part c text n absent first zero below = absent
none_before part c text n absent first (suc m) below = first m (omega arith)

-- Where it finds it, the text stands there and not before.
pub find_from-some :
    (text part : List ℕ) (index at : ℕ)
    → find_from text part index ≡ some at
    → (n : ℕ) × (at ≡ index + n)
      × (starts_with part (drop n text) ≡ true)
      × ((m : ℕ) → m < n → starts_with part (drop m text) ≡ false)
unfolding find_from
find_from-some [] part index at h = elim (Bool-cases (starts_with part [])) [
  | inl here ↦ (0, ground arith, here, λ m below. absurd (omega arith))
  | inr absent ↦ cc
]
find_from-some (c ∷ text) part index at h = elim (Bool-cases (starts_with part (c ∷ text))) [
  | inl here ↦ (0, ground arith, here, λ m below. absurd (omega arith))
  | inr absent ↦
      let (n, place, here, first) = find_from-some text part (index + 1) at (ground arith) in
      (suc n, omega arith, here, none_before part c text n absent first)
]

-- A line begins at `k`, and only blanks stand between it and `n`.
abbrev pub IsIndented : List ℕ → (n k : ℕ) → Type 0
IsIndented body n k =
    (k ≤ n)
    × ((k ≡ 0) ⊎ ((1 ≤ k) × (get_or body (k - 1) 0 ≡ 10)))
    × ((j : ℕ) → k ≤ j → j < n → (get_or body j 0 ≡ 32) ⊎ (get_or body j 0 ≡ 9))

-- What stands behind is nothing or begins with a line end: "\n", "\r\n", or a last "\r".
abbrev pub IsLineEnd : List ℕ → Type 0
IsLineEnd [] = Unit
IsLineEnd (c ∷ []) = (c ≡ 10) ⊎ (c ≡ 13)
IsLineEnd (c ∷ d ∷ rest) = (c ≡ 10) ⊎ ((c ≡ 13) × (d ≡ 10))

-- The statement stands at a position, and nowhere else, alone on its line.
pub record StandsAlone (body : List ℕ) (n : ℕ) : Type 0 where
  pub here : take 17 (drop n body) ≡ statement
  pub only : (m : ℕ) → take 17 (drop m body) ≡ statement → m ≡ n
  pub line : (k : ℕ) × IsIndented body n k
  pub ends : IsLineEnd (drop (n + 17) body)

-- The loop back over the blanks stops at the first place behind a character that is none.
line_before-stop :
    (body : List ℕ) (at : ℕ)
    → let k = line_before body at in
      (k ≤ at)
      × ((k ≡ 0) ⊎ ((1 ≤ k) × (is_blank (get_or body (k - 1) 0) ≡ false)))
      × ((j : ℕ) → k ≤ j → j < at → is_blank (get_or body j 0) ≡ true)
unfolding line_before
line_before-stop body zero = (omega arith, inl refl, λ j low below. absurd (omega arith))
line_before-stop body (suc line) =
    let (within, stops, blanks) = line_before-stop body line in
    elim (Bool-cases (is_blank (get_or body line 0))) [
      | inl blank ↦ rw blank (
        omega arith,
        stops,
        λ j low below. elim (Bool-cases (j == line)) [
          | inl last ↦ rw ((==_iff j line).0 last) blank
          | inr other ↦ blanks j low (ground (arith, ==_iff j line))
        ],
      )
      | inr other ↦
          let here =
            ap (λ k. is_blank (get_or body k 0)) {x = suc line - 1} {y = line} (omega arith)
            ∙ other in
          rw other (omega arith, inr (omega arith, here), λ j low below. absurd (omega arith))
    ]

pub line_start-IsIndented :
    (body : List ℕ) (at : ℕ)
    → at_line_start body (line_before body at) ≡ true
    → (k : ℕ) × IsIndented body at k
line_start-IsIndented body at h =
    let (within, stops, blanks) = line_before-stop body at in
    (
      line_before body at,
      (
        within,
        ground (arith, ==_iff (get_or body (line_before body at - 1) 0) 10),
        λ j low below. let blank = blanks j low below in ground arith,
      ),
    )

pub IsIndented-line_start :
    (body : List ℕ) (at k : ℕ)
    → IsIndented body at k
    → at_line_start body (line_before body at) ≡ true
IsIndented-line_start body at k (low, starts, blank) =
    let n = line_before body at in
    let (within, stops, blanks) = line_before-stop body at in
    elim stops [
      | inl first ↦ rw first refl
      | inr (some_line, other) ↦ elim (Bool-cases (ltb k n)) [
        | inl behind ↦
            let last = blank (n - 1) (ground arith) (ground arith) in absurd (ground arith)
        | inr not_behind ↦ elim (Bool-cases (k == n)) [
          | inl same ↦
              let place = (==_iff k n).0 same in
              let line_feed : (k ≡ 0) ⊎ ((1 ≤ k) × (get_or body (k - 1) 0 ≡ 10)) = starts in
              rw (← place) (ground arith)
          | inr other_place ↦
              let later : n < k = ground (arith, ==_iff k n) in
              let between = blanks (k - 1) (omega arith) (omega arith) in absurd (ground arith)
        ]
      ]
    ]

line_ends : List ℕ → Bool
line_ends rest =
    let end = if ltb 0 (length rest) && get_or rest 0 0 == 13 then 1 else 0 in
    not (ltb end (length rest)) || get_or rest end 0 == 10

drop-length : (body : List ℕ) (n i : ℕ) → ltb (n + i) (length body) ≡ ltb i (length (drop n body))
drop-length body zero i = ap (λ k. ltb k (length body)) {x = 0 + i} {y = i} (omega arith)
drop-length [] (suc n) i = ground arith
drop-length (c ∷ body) (suc n) i = ground (arith, drop-length body n i)

get_or-drop : (body : List ℕ) (n i : ℕ) → get_or body (n + i) 0 ≡ get_or (drop n body) i 0
get_or-drop body zero i = ap (λ k. get_or body k 0) {x = 0 + i} {y = i} (omega arith)
get_or-drop [] (suc n) i = refl
get_or-drop (c ∷ body) (suc n) i =
    ap (λ k. get_or (c ∷ body) k 0) {x = suc n + i} {y = suc (n + i)} (omega arith)
    ∙ get_or-drop body n i

at_line_end-drop : (body : List ℕ) (at : ℕ) → at_line_end body at ≡ line_ends (drop at body)
unfolding line_ends
at_line_end-drop body at =
    let same : at ≡ at + 0 = omega arith in
    let inside = ap (λ k. ltb k (length body)) same ∙ drop-length body at 0 in
    let char = ap (λ k. get_or body k 0) same ∙ get_or-drop body at 0 in
    ground (arith, inside, char, drop-length body at 1, get_or-drop body at 1)

line_ends-IsLineEnd : (rest : List ℕ) → line_ends rest ≡ true → IsLineEnd rest
unfolding line_ends
line_ends-IsLineEnd [] h = tt
line_ends-IsLineEnd (c ∷ []) h = ground arith
line_ends-IsLineEnd (c ∷ d ∷ rest) h = ground arith

IsLineEnd-line_ends : (rest : List ℕ) → IsLineEnd rest → line_ends rest ≡ true
unfolding line_ends
IsLineEnd-line_ends [] h = ground arith
IsLineEnd-line_ends (c ∷ []) h = ground arith
IsLineEnd-line_ends (c ∷ d ∷ rest) h = ground arith

pub at_line_end-IsLineEnd :
    (body : List ℕ) (at : ℕ) → at_line_end body at ≡ true → IsLineEnd (drop at body)
at_line_end-IsLineEnd body at h =
    line_ends-IsLineEnd (drop at body) (sym (at_line_end-drop body at) ∙ h)

pub IsLineEnd-at_line_end :
    (body : List ℕ) (at : ℕ) → IsLineEnd (drop at body) → at_line_end body at ≡ true
IsLineEnd-at_line_end body at h = at_line_end-drop body at ∙ IsLineEnd-line_ends (drop at body) h
