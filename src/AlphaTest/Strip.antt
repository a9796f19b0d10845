-- ===== src/AlphaTest/Strip.antt =====
-- When StripNativeAlphaTest strips, and the text that it leaves; the admission of base compiles beside
-- the variant's.
use bolts_rebuilt.Prelude.{
  ℕ, zero, suc, ◌+◌, ◌-◌, ◌<◌, ◌≡◌, ◌⊎◌, inl, inr, refl, ap, sym, ◌∙◌, true, false, Bool,
  Bool-cases, Option-cases, List, [], ◌∷◌, ltb, take, drop, none, some, ◌++◌, arith, ==_iff, ◌==◌,
}
use bolts_rebuilt.AlphaTest.{
  statement, starts_with, find_from, line_before, at_line_start, at_line_end, strip_alpha_test,
  base_slot_free,
}
use bolts_rebuilt.AlphaTest.Places.{
  StandsAlone, starts_with-take, take-starts_with, find_from-none, find_from-some,
  line_start-IsIndented, IsIndented-line_start, at_line_end-IsLineEnd, IsLineEnd-at_line_end,
}

drop-drop : (n m : ℕ) (xs : List ℕ) → drop n (drop m xs) ≡ drop (m + n) xs
drop-drop n zero xs = ap (λ k. drop k xs) {x = n} {y = 0 + n} (omega arith)
drop-drop zero (suc m) [] = ap (λ k. drop k []) {x = suc m} {y = suc m + 0} (omega arith)
drop-drop (suc n) (suc m) [] =
    ap (λ k. drop k []) {x = suc (m + suc n)} {y = suc m + suc n} (omega arith)
drop-drop n (suc m) (x ∷ xs) =
    drop-drop n m xs ∙ ap (λ k. drop k (x ∷ xs)) {x = suc (m + n)} {y = suc m + n} (omega arith)

module _ (body : List ℕ) where
  abbrev stands : ℕ → Bool
  stands m = starts_with statement (drop m body)

  -- A second find that finds nothing leaves one place.
  only_place :
      (at : ℕ)
      → ((m : ℕ) → m < at → stands m ≡ false)
      → find_from (drop (at + 1) body) statement (at + 1) ≡ none
      → (m : ℕ) → stands m ≡ true
      → m ≡ at
  only_place at first again m h = elim (Bool-cases (ltb m at)) [
    | inl before ↦ let absent = first m (ground arith) in cc
    | inr not_before ↦ elim (Bool-cases (m == at)) [
      | inl same ↦ (==_iff m at).0 same
      | inr other ↦
          let later : at < m = ground (arith, ==_iff m at) in
          let absent =
            find_from-none (drop (at + 1) body) statement (at + 1) (m - (at + 1)) again in
          let there : drop (m - (at + 1)) (drop (at + 1) body) ≡ drop m body =
            drop-drop (m - (at + 1)) (at + 1) body
            ∙ ap (λ k. drop k body) {x = at + 1 + (m - (at + 1))} {y = m} (omega arith) in
          let missing = ap (starts_with statement) (sym there) ∙ absent in cc
    ]
  ]

  -- A second find that finds the statement gives another place.
  second_place :
      (at other : ℕ)
      → find_from (drop (at + 1) body) statement (at + 1) ≡ some other
      → (m : ℕ) × (at < m) × (stands m ≡ true)
  second_place at other again =
      let (n, place, here, first) =
        find_from-some (drop (at + 1) body) statement (at + 1) other again in
      (at + 1 + n, omega arith, ap (starts_with statement) (sym (drop-drop n (at + 1) body)) ∙ here)

  abbrev Stripped : Type 0
  Stripped =
      ((n : ℕ) × StandsAlone body n
        × (strip_alpha_test body ≡ (true, take n body ++ 59 ∷ drop (n + 17) body)))
      ⊎ ((strip_alpha_test body ≡ (false, body)) × ((n : ℕ) → ¬ StandsAlone body n))

  strip-absent : find_from body statement 0 ≡ none → Stripped
  unfolding strip_alpha_test
  strip-absent absent = inr (
    rw (strip_alpha_test, absent) refl,
    λ n alone.
        let standing = take-starts_with statement (drop n body) alone.here in
        let missing = find_from-none body statement 0 n absent in absurd (ground arith),
  )

  strip-twice :
      (at other : ℕ)
      → find_from body statement 0 ≡ some at
      → stands at ≡ true
      → find_from (drop (at + 1) body) statement (at + 1) ≡ some other
      → Stripped
  unfolding strip_alpha_test
  strip-twice at other found here again = inr (
    rw (strip_alpha_test, found, again) refl,
    λ n alone.
        let (m, later, there) = second_place at other again in
        let one = alone.only at (starts_with-take statement (drop at body) here) in
        let two = alone.only m (starts_with-take statement (drop m body) there) in
        absurd (omega arith),
  )

  strip-once :
      (at : ℕ)
      → find_from body statement 0 ≡ some at
      → stands at ≡ true
      → find_from (drop (at + 1) body) statement (at + 1) ≡ none
      → ((m : ℕ) → stands m ≡ true → m ≡ at)
      → Stripped
  unfolding strip_alpha_test
  strip-once at found here again only =
      let is_at = λ (n : ℕ) (alone : StandsAlone body n).
        sym (alone.only at (starts_with-take statement (drop at body) here)) in
      elim (Bool-cases (at_line_start body (line_before body at))) [
        | inr inside ↦ inr (
          rw (strip_alpha_test, found, again, inside) refl,
          λ n alone.
              let starts = IsIndented-line_start body n alone.line.0 alone.line.1 in
              let same = ap (λ k. at_line_start body (line_before body k)) (is_at n alone) in
              absurd (ground arith),
        )
        | inl starts ↦ elim (Bool-cases (at_line_end body (at + 17))) [
          | inr followed ↦ inr (
            rw (strip_alpha_test, found, again, starts, followed) refl,
            λ n alone.
                let ends = IsLineEnd-at_line_end body (n + 17) alone.ends in
                let same = ap (λ k. at_line_end body (k + 17)) (is_at n alone) in
                absurd (ground arith),
          )
          | inl ends ↦ inl (
            at,
            record {
              here = starts_with-take statement (drop at body) here;
              only = λ m h. only m (take-starts_with statement (drop m body) h);
              line = line_start-IsIndented body at starts;
              ends = at_line_end-IsLineEnd body (at + 17) ends;
            },
            rw (strip_alpha_test, found, again, starts, ends) refl,
          )
        ]
      ]

-- The statement is stripped exactly where it stands once in the body and alone on its line: then the
-- answer is true and it is replaced by ";", with the text before and after it kept. Otherwise the
-- answer is false and the body is left as it is.
pub strip_alpha_test_lem :
    (body : List ℕ)
    → ((n : ℕ) × StandsAlone body n
        × (strip_alpha_test body ≡ (true, take n body ++ 59 ∷ drop (n + 17) body)))
      ⊎ ((strip_alpha_test body ≡ (false, body)) × ((n : ℕ) → ¬ StandsAlone body n))
strip_alpha_test_lem body = elim (Option-cases (find_from body statement 0)) [
  | inl absent ↦ strip-absent body absent
  | inr (at, found) ↦
      let (n, place, here, first) = find_from-some body statement 0 at found in
      let same : n ≡ at = omega arith in
      let here' = ap (stands body) (sym same) ∙ here in
      elim (Option-cases (find_from (drop (at + 1) body) statement (at + 1))) [
        | inr (other, again) ↦ strip-twice body at other found here' again
        | inl again ↦
            strip-once body at found here' again
              (only_place body at (λ m below. first m (omega arith)) again)
      ]
]

-- A base compile is admitted beside one variant compile exactly when it would be admitted without it:
-- the variant holds none of the base's slots.
pub base_slot_free_lem :
    (base_in_flight variant_in_flight cap : ℕ)
    → base_slot_free (base_in_flight + variant_in_flight) variant_in_flight cap
      ≡ base_slot_free base_in_flight 0 cap
unfolding base_slot_free
base_slot_free_lem base_in_flight variant_in_flight cap =
    ap (λ x. ltb x cap) {x = base_in_flight + variant_in_flight - variant_in_flight}
      {y = base_in_flight - 0} (omega arith)
