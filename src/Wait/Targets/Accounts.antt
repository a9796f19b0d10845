-- ===== src/Wait/Targets/Accounts.antt =====
-- Every sample is booked once, on its own target, or counted as untracked.
use bolts_rebuilt.Prelude.{
  ℕ, zero, suc, ◌+◌, ◌≡◌, refl, sym, ◌∙◌, ap, ◌⊎◌, inl, inr, Bool, true, false, not, ◌&&◌,
  Bool-cases, Option-cases, Option, none, some, List, [], ◌∷◌, All, arith, if◌then◌else◌, get_elem?,
}
use mathlib.Core.Path.{subst}
use bolts_rebuilt.Wait.Targets.{
  Target, WaitTarget, WaitSample, WaitTable, same_target, record_in, find_place, modify,
  record_sample,
}

-- The sum of a figure over the entries in use for one target.
pub sum_of : (WaitTarget → ℕ) → Target → List WaitTarget → ℕ
sum_of figure target [] = 0
sum_of figure target (entry ∷ entries) =
    (if entry.used && same_target entry.target target then figure entry else 0)
    + sum_of figure target entries

abbrev pub IsOther : Target → WaitTarget → Type 0
IsOther target entry = (entry.used && same_target entry.target target) ≡ false

abbrev pub IsUsed : WaitTarget → Type 0
IsUsed entry = entry.used ≡ true

pub same_target_sound : (a b : Target) → same_target a b ≡ true → a ≡ b
unfolding same_target
same_target_sound a b h = ground arith

pub same_target_refl : (a : Target) → same_target a a ≡ true
unfolding same_target
same_target_refl a = ground arith

-- The place of an entry for which `P` holds, counted from `index`.
abbrev FoundAt : (WaitTarget → Type 0) → List WaitTarget → ℕ → Option ℕ → Type 0
FoundAt P entries index result =
    (k : ℕ) × (entry : WaitTarget) × (result ≡ some (index + k))
    × (get_elem? entries k ≡ some entry)
    × P entry

abbrev Found : Target → List WaitTarget → ℕ → Option ℕ → Option ℕ → Type 0
Found target entries index free result =
    FoundAt (λ e. (e.used ≡ true) × (e.target ≡ target)) entries index result
    ⊎ (All (IsOther target) entries
        × (((k : ℕ) × (free ≡ some k) × (result ≡ some k))
            ⊎ ((free ≡ none) × FoundAt (λ e. e.used ≡ false) entries index result)
            ⊎ ((free ≡ none) × (result ≡ none) × All IsUsed entries)))

next_free : WaitTarget → ℕ → Option ℕ → Option ℕ
next_free entry index free =
    if not entry.used then elim free [ none ↦ some index | some k ↦ some k ] else free

find_place-cons :
    (target : Target) (entry : WaitTarget) (entries : List WaitTarget) (index : ℕ) (free : Option ℕ)
    → find_place target (entry ∷ entries) index free ≡ (
        if entry.used && same_target entry.target target
        then some index
        else find_place target entries (index + 1) (next_free entry index free))
unfolding find_place next_free
find_place-cons target entry entries index free = refl

FoundAt-suc :
    {P : WaitTarget → Type 0} (entry : WaitTarget) (entries : List WaitTarget) (index : ℕ)
    (result : Option ℕ)
    → FoundAt P entries (index + 1) result
    → FoundAt P (entry ∷ entries) index result
FoundAt-suc entry entries index result (k, e, r, g, p) = (suc k, e, r ∙ ap some (omega arith), g, p)

and_left : (a b : Bool) → (a && b) ≡ true → a ≡ true
and_left a b h = ground arith

and_right : (a b : Bool) → (a && b) ≡ true → b ≡ true
and_right a b h = ground arith

next_free-used :
    (entry : WaitTarget) (index : ℕ) (free : Option ℕ)
    → entry.used ≡ true
    → next_free entry index free ≡ free
unfolding next_free
next_free-used entry index free used = rw used refl

next_free-some : (entry : WaitTarget) (index k : ℕ) → next_free entry index (some k) ≡ some k
unfolding next_free
next_free-some entry index k = elim (Bool-cases entry.used) [
  | inl e ↦ rw e refl
  | inr e ↦ rw e refl
]

next_free-none :
    (entry : WaitTarget) (index : ℕ) → entry.used ≡ false → next_free entry index none ≡ some index
unfolding next_free
next_free-none entry index clear = rw clear refl

-- An entry passed over, when it leaves the first free place as it is.
passed :
    (target : Target) (entry : WaitTarget) (entries : List WaitTarget) (index : ℕ)
    (free result : Option ℕ)
    → IsOther target entry
    → (free ≡ none → entry.used ≡ true)
    → Found target entries (index + 1) free result
    → Found target (entry ∷ entries) index free result
passed target entry entries index free result other used found = elim found [
  | inl f ↦ inl (FoundAt-suc entry entries index result f)
  | inr (others, inl f) ↦ inr ((other, others), inl f)
  | inr (others, inr (inl (e, f))) ↦
      inr ((other, others), inr (inl (e, FoundAt-suc entry entries index result f)))
  | inr (others, inr (inr (e, f, all))) ↦ inr ((other, others), inr (inr (e, f, (used e, all))))
]

-- An entry passed over that is free itself.
reach_free :
    (target : Target) (entry : WaitTarget) (entries : List WaitTarget) (index : ℕ)
    (free result : Option ℕ)
    → entry.used ≡ false
    → IsOther target entry
    → Found target entries (index + 1) (next_free entry index free) result
    → Found target (entry ∷ entries) index free result
reach_free target entry entries index (some k) result clear other found =
    passed target entry entries index (some k) result other (λ e. cc)
      (subst (λ o. Found target entries (index + 1) o result) (next_free-some entry index k) found)
reach_free target entry entries index none result clear other found =
    elim (subst (λ o. Found target entries (index + 1) o result) (next_free-none entry index clear)
      found) [
        | inl f ↦ inl (FoundAt-suc entry entries index result f)
        | inr (others, inl (k, e, f)) ↦ inr (
          (other, others),
          inr (inl (refl, (0, entry, f ∙ sym e ∙ ap some (omega arith), refl, clear))),
        )
        | inr (others, inr (inl (e, f))) ↦ cc
        | inr (others, inr (inr (e, f, all))) ↦ cc
      ]

find_place-found :
    (target : Target) (entry : WaitTarget) (entries : List WaitTarget) (index : ℕ) (free : Option ℕ)
    → (entry.used && same_target entry.target target) ≡ true
    → find_place target (entry ∷ entries) index free ≡ some index
find_place-found target entry entries index free h =
    find_place-cons target entry entries index free ∙ rw h refl

find_place-skip :
    (target : Target) (entry : WaitTarget) (entries : List WaitTarget) (index : ℕ) (free : Option ℕ)
    → IsOther target entry
    → find_place target (entry ∷ entries) index free
      ≡ find_place target entries (index + 1) (next_free entry index free)
find_place-skip target entry entries index free h =
    find_place-cons target entry entries index free ∙ rw h refl

find_place-Found :
    (target : Target) (entries : List WaitTarget) (index : ℕ) (free : Option ℕ)
    → Found target entries index free (find_place target entries index free)
unfolding find_place
find_place-Found target [] index none = inr (tt, inr (inr (refl, refl, tt)))
find_place-Found target [] index (some k) = inr (tt, inl (k, refl, refl))
find_place-Found target (entry ∷ entries) index free =
    let rest = find_place-Found target entries (index + 1) (next_free entry index free) in
    let goal : Option ℕ → Type 0 = Found target (entry ∷ entries) index free in
    elim (Bool-cases (entry.used && same_target entry.target target)) [
      | inl h ↦ subst goal (sym (find_place-found target entry entries index free h)) (
          inl (
            0,
            entry,
            ap some (omega arith),
            refl,
            (and_left _ _ h, same_target_sound entry.target target (and_right _ _ h)),
          ))
      | inr h ↦
          subst goal (sym (find_place-skip target entry entries index free h))
            (elim (Bool-cases entry.used) [
              | inl used ↦
                  passed target entry entries index free _ h (λ _. used)
                    (subst
                      (λ o.
                        Found target entries (index + 1) o
                          (find_place target entries (index + 1) (next_free entry index free)))
                      (next_free-used entry index free used) rest)
              | inr clear ↦ reach_free target entry entries index free _ clear h rest
            ])
    ]

-- An entry that has booked nothing yet, when it is not in use.
abbrev pub IsClean : (WaitTarget → ℕ) → WaitTarget → Type 0
IsClean figure entry = entry.used ≡ false → figure entry ≡ 0

same_target_eq : (a b c : Target) → a ≡ b → same_target a c ≡ same_target b c
same_target_eq a b c e = ap (λ t. same_target t c) e

weight-record_in :
    (figure : WaitTarget → ℕ) (s : WaitSample) (amount : ℕ) (T : Target) (entry : WaitTarget)
    → figure (record_in s entry) ≡ figure entry + amount
    → (entry.used ≡ true) × (entry.target ≡ s.target) ⊎ (entry.used ≡ false) × (figure entry ≡ 0)
    → (if same_target (record_in s entry).target T then figure (record_in s entry) else 0)
      ≡ (if entry.used && same_target entry.target T then figure entry else 0)
        + (if same_target s.target T then amount else 0)
unfolding record_in
weight-record_in figure s amount T entry grows (inl (used, same)) =
    rw (grows, used, same) (ground arith)
weight-record_in figure s amount T entry grows (inr (clear, empty)) =
    rw (grows, empty, clear) (ground arith)

-- What one more sample adds to the sum of its own target, at the entry found.
sum_of-modify :
    (figure : WaitTarget → ℕ) (s : WaitSample) (amount : ℕ) (T : Target) (k : ℕ)
    (entries : List WaitTarget) (entry : WaitTarget)
    → figure (record_in s entry) ≡ figure entry + amount
    → get_elem? entries k ≡ some entry
    → (entry.used ≡ true) × (entry.target ≡ s.target) ⊎ (entry.used ≡ false) × (figure entry ≡ 0)
    → sum_of figure T (modify (record_in s) k entries)
      ≡ sum_of figure T entries + (if same_target s.target T then amount else 0)
unfolding sum_of modify record_in
sum_of-modify figure s amount T k [] entry grows e found = cc
sum_of-modify figure s amount T zero (e ∷ entries) entry grows g found =
    let same : e ≡ entry = cc in
    rw same (omega (arith, weight-record_in figure s amount T entry grows found))
sum_of-modify figure s amount T (suc k) (e ∷ entries) entry grows g found =
    omega (arith, sum_of-modify figure s amount T k entries entry grows g found)

record_in-IsClean :
    (figure : WaitTarget → ℕ) (s : WaitSample) (entry : WaitTarget)
    → IsClean figure (record_in s entry)
unfolding record_in
record_in-IsClean figure s entry clear = cc

All-get_elem? :
    (P : WaitTarget → Type 0) (entries : List WaitTarget) (k : ℕ) (entry : WaitTarget)
    → All P entries
    → get_elem? entries k ≡ some entry
    → P entry
All-get_elem? P [] k entry all g = cc
All-get_elem? P (e ∷ entries) zero entry (p, all) g = let same : e ≡ entry = cc in subst P same p
All-get_elem? P (e ∷ entries) (suc k) entry (p, all) g = All-get_elem? P entries k entry all g

All-modify :
    (P : WaitTarget → Type 0) (f : WaitTarget → WaitTarget) (k : ℕ) (entries : List WaitTarget)
    → ((e : WaitTarget) → P (f e))
    → All P entries
    → All P (modify f k entries)
unfolding modify
All-modify P f k [] h all = tt
All-modify P f zero (e ∷ entries) h (p, all) = (h e, all)
All-modify P f (suc k) (e ∷ entries) h (p, all) = (p, All-modify P f k entries h all)

record_sample-none :
    (table : WaitTable) (s : WaitSample)
    → find_place s.target table.entries 0 none ≡ none
    → record_sample table s ≡ record table { untracked = table.untracked + 1 }
unfolding record_sample
record_sample-none table s h = rw (record_sample, h) refl

record_sample-some :
    (table : WaitTable) (s : WaitSample) (k : ℕ)
    → find_place s.target table.entries 0 none ≡ some k
    → record_sample table s ≡ record table { entries = modify (record_in s) k table.entries }
unfolding record_sample
record_sample-some table s k h = rw (record_sample, h) refl

-- Take a figure to which Record adds an amount at the entry it books, and a table in which
-- entries not in use have none of it. Either the sum of the figure over the entries of each
-- target grows by the amount for the target of the sample and stays for every other, with
-- `untracked` unchanged; or every entry is in use for another target, the entries stay and
-- `untracked` grows by one.
pub record_sample-sum_of :
    (figure : WaitTarget → ℕ) (s : WaitSample) (amount : ℕ) (T : Target) (table : WaitTable)
    → ((entry : WaitTarget) → figure (record_in s entry) ≡ figure entry + amount)
    → All (IsClean figure) table.entries
    → (sum_of figure T (record_sample table s).entries
          ≡ sum_of figure T table.entries + (if same_target s.target T then amount else 0))
        × ((record_sample table s).untracked ≡ table.untracked)
      ⊎ ((record_sample table s).entries ≡ table.entries)
        × ((record_sample table s).untracked ≡ table.untracked + 1)
        × All IsUsed table.entries
        × All (IsOther s.target) table.entries
record_sample-sum_of figure s amount T table grows clean =
    elim (find_place-Found s.target table.entries 0 none) [
      | inl (k, entry, r, g, found) ↦
          rw (record_sample-some table s k (r ∙ ap some (omega arith))) (
            inl (
              sum_of-modify figure s amount T k table.entries entry (grows entry) g (inl found),
              refl,
            ))
      | inr (others, inl (k, e, r)) ↦ cc
      | inr (others, inr (inl (e, (k, entry, r, g, clear)))) ↦
          rw (record_sample-some table s k (r ∙ ap some (omega arith))) (
            inl (
              sum_of-modify figure s amount T k table.entries entry (grows entry) g
                  (inr (clear, All-get_elem? (IsClean figure) table.entries k entry clean g clear)),
              refl,
            ))
      | inr (others, inr (inr (e, r, all))) ↦
          rw (record_sample-none table s r) (inr (refl, refl, all, others))
    ]

-- Record keeps the entries that are not in use free of any figure.
pub record_sample-IsClean :
    (figure : WaitTarget → ℕ) (s : WaitSample) (table : WaitTable)
    → All (IsClean figure) table.entries
    → All (IsClean figure) (record_sample table s).entries
record_sample-IsClean figure s table clean =
    elim (Option-cases (find_place s.target table.entries 0 none)) [
      | inl r ↦ rw (record_sample-none table s r) clean
      | inr (k, r) ↦ rw (record_sample-some table s k r) (
          All-modify (IsClean figure) (record_in s) k table.entries (record_in-IsClean figure s)
            clean)
    ]
