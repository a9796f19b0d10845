-- ===== src/Bindings/Grouping.antt =====
-- The spans of a grouped plan, against the bindings of each fetch constant in the shader's order.
use bolts_rebuilt.Prelude.{
  ℕ, zero, suc, ◌+◌, ◌<◌, ◌≤◌, ◌≡◌, inl, inr, refl, ap, sym, ◌∙◌, true, Bool-cases, List, [], ◌∷◌,
  ◌==◌, if◌then◌else◌, update, arith,
}
use mathlib.Core.Path.{subst}
use bolts_rebuilt.Bindings.{Binding, read_range, count_of, start_of, place, group}

-- The bindings of one fetch constant, in their order.
pub bindings_of : ℕ → List Binding → List Binding
bindings_of f [] = []
bindings_of f (binding ∷ source) =
    let rest = bindings_of f source in if binding.fetch_constant == f then binding ∷ rest else rest

-- The places that the bindings left will fill for a fetch constant.
abbrev Inside : (starts written : ℕ → ℕ) → List Binding → ℕ → ℕ → Type 0
Inside starts written source f j =
    (starts f + written f ≤ j) × (j < starts f + written f + count_of f source)

abbrev Apart : (starts written : ℕ → ℕ) → List Binding → Type 0
Apart starts written source =
    (f g j : ℕ) → Inside starts written source f j → Inside starts written source g j → f ≡ g

-- A place that no binding left fills is not written.
place-other :
    (starts written : ℕ → ℕ) (source : List Binding) (target : ℕ → Binding) (j : ℕ)
    → ((f : ℕ) → ¬ (Inside starts written source f j))
    → place starts written source target j ≡ target j
unfolding place count_of
place-other starts written [] target j outside = refl
place-other starts written (b ∷ source) target j outside =
    let f = b.fetch_constant in
    place-other starts (update written f (written f + 1)) source
      (update target (starts f + written f) b) j (λ g inside. outside g (ground arith))
    ∙ (let untouched = outside f in ground arith)

Apart-step :
    (starts written : ℕ → ℕ) (b : Binding) (source : List Binding)
    → Apart starts written (b ∷ source)
    → Apart starts (update written b.fetch_constant (written b.fetch_constant + 1)) source
unfolding count_of
Apart-step starts written b source apart f g j in_f in_g = apart f g j (ground arith) (ground arith)

-- The place just filled is not filled again.
filled :
    (starts written : ℕ → ℕ) (b : Binding) (source : List Binding) (g : ℕ)
    → Apart starts written (b ∷ source)
    → ¬ (
        Inside starts
          (update written b.fetch_constant (written b.fetch_constant + 1))
          source
          g
          (starts b.fetch_constant + written b.fetch_constant))
unfolding count_of
filled starts written b source g apart inside =
    let f = b.fetch_constant in
    let same = apart f g (starts f + written f) (ground arith) (ground arith) in ground arith

read_range-suc : (T : ℕ → Binding) (s n : ℕ) → read_range T s (1 + n) ≡ T s ∷ read_range T (s + 1) n
unfolding read_range
read_range-suc T s n = ap (read_range T s) {x = 1 + n} {y = suc n} (omega arith)

cons_eq : {a b : Binding} {xs ys : List Binding} → a ≡ b → xs ≡ ys → a ∷ xs ≡ b ∷ ys
cons_eq {b = b} {xs = xs} e h = ap (λ x. x ∷ xs) e ∙ ap (λ l. b ∷ l) h

same_place :
    (starts written : ℕ → ℕ) (f f0 : ℕ)
    → (f0 == f) ≡ true
    → starts f + written f ≡ starts f0 + written f0
same_place starts written f f0 h = ap (λ x. starts x + written x) {x = f} {y = f0} (ground arith)

place-bindings_of :
    (starts written : ℕ → ℕ) (source : List Binding) (target : ℕ → Binding) (f : ℕ)
    → Apart starts written source
    → read_range (place starts written source target) (starts f + written f) (count_of f source)
      ≡ bindings_of f source
unfolding place count_of bindings_of read_range
place-bindings_of starts written [] target f apart = refl
place-bindings_of starts written (b ∷ source) target f apart =
    let f0 = b.fetch_constant in
    let written' = update written f0 (written f0 + 1) in
    let target' = update target (starts f0 + written f0) b in
    let rest =
      place-bindings_of starts written' source target' f
        (Apart-step starts written b source apart) in
    let kept =
      place-other starts written' source target' (starts f0 + written f0)
        (λ g. filled starts written b source g apart) in
    let T = place starts written' source target' in
    elim (Bool-cases (f0 == f)) [
      | inl h ↦ rw h (
          read_range-suc T (starts f + written f) (count_of f source)
          ∙ cons_eq
              (ap T {x = starts f + written f} {y = starts f0 + written f0}
                  (same_place starts written f f0 h)
                ∙ kept
                ∙ ground arith)
              (ap (λ s. read_range T s (count_of f source)) {x = starts f + written f + 1}
                  {y = starts f + written' f} (ground arith)
                ∙ rest))
      | inr h ↦ rw h (
          ap (read_range T (starts f + written f)) {x = 0 + count_of f source}
            {y = count_of f source} (omega arith)
          ∙ ap (λ s. read_range T s (count_of f source)) {x = starts f + written f}
              {y = starts f + written' f} (ground arith)
          ∙ rest)
    ]

start_of-le : (counts : ℕ → ℕ) (f g : ℕ) → f < g → start_of counts f + counts f ≤ start_of counts g
unfolding start_of
start_of-le counts f zero h = elim h [ ]
start_of-le counts f (suc g) h = elim (Bool-cases (f == g)) [
  | inl e ↦
      let same : f ≡ g = ground arith in
      subst (λ x. start_of counts x + counts x ≤ start_of counts g + counts g) (sym same)
        (omega arith)
  | inr n ↦ let rest = start_of-le counts f g (ground arith) in omega arith
]

Apart-start : (source : List Binding) → Apart (start_of (λ f. count_of f source)) (λ _. 0) source
Apart-start source f g j (low, high) (low', high') =
    let below = start_of-le (λ f. count_of f source) f g in
    let above = start_of-le (λ f. count_of f source) g f in ground (arith, below, above)

-- The span of a fetch constant in a grouped plan holds the bindings of that constant, each once and
-- in the order in which the shader lists them.
pub group-bindings_of :
    (source : List Binding) (target : ℕ → Binding) (f : ℕ)
    → read_range
        (group source target).0
        ((group source target).1 f).start
        ((group source target).1 f).count
      ≡ bindings_of f source
unfolding group
group-bindings_of source target f =
    let starts = start_of (λ g. count_of g source) in
    ap (λ s. read_range (place starts (λ _. 0) source target) s (count_of f source)) {x = starts f}
      {y = starts f + 0} (omega arith)
    ∙ place-bindings_of starts (λ _. 0) source target f (Apart-start source)
