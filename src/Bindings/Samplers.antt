-- ===== src/Bindings/Samplers.antt =====
-- The sampler consensus answered for a draw, against a direct resolution of the plan's samplers.
use bolts_rebuilt.Prelude.{
  ◌∙◌, ap, Bool-cases, ℕ, ◌<◌, ◌≡◌, ◌⊎◌, inl, inr, sym, true, ◌&&◌, List, ◌==◌, update, same_words,
  same_words_iff, arith,
}
use mathlib.Core.Path.{subst}
use bolts_rebuilt.Bindings.{
  Plan, Stats, Consensus, resolve_all, resolve_sampler, samplers_of, no_consensus, fetch_constants,
}

-- The SDK's resolution of a binding, from the fetch words and the override.
module _ (resolve : List ℕ → ℕ → ℕ → ℕ) where
  -- The loop over the samplers without the memo.
  abbrev pub direct : Plan → ℕ → List ℕ → ℕ → Consensus
  direct plan fetch_constant words override =
      (resolve_all (resolve words override) (samplers_of plan fetch_constant) no_consensus 0).0

  -- Every valid memo holds what its own key resolves to.
  abbrev pub IsResolved : Plan → Type 0
  IsResolved plan =
      (f : ℕ)
      → f < fetch_constants
      → (plan.sampler_memos f).valid ≡ true
      → (plan.sampler_memos f).consensus
        ≡ direct plan f (plan.sampler_memos f).fetch_words
            (plan.sampler_memos f).anisotropic_override

  memo_hit :
      (plan : Plan) (stats : Stats) (f : ℕ) (words : List ℕ) (override : ℕ)
      → f < fetch_constants
      → IsResolved plan
      → ((resolve_sampler (resolve words override) plan stats f words override).0
          ≡ direct plan f words override)
        × (((resolve_sampler (resolve words override) plan stats f words override).1 ≡ plan)
            ⊎ ((resolve_sampler (resolve words override) plan stats f words override).1
                ≡ record plan {
                  sampler_memos = update plan.sampler_memos f (record {
                    fetch_words = words;
                    anisotropic_override = override;
                    consensus = direct plan f words override;
                    valid = true;
                  });
                }))
  unfolding resolve_sampler
  memo_hit plan stats f words override known resolved =
      let memo = plan.sampler_memos f in
      let held = resolved f known in
      elim (Bool-cases (
        memo.valid && same_words memo.fetch_words words && memo.anisotropic_override == override)) [
          | inl hit ↦
              let same_key : memo.fetch_words ≡ words =
                (same_words_iff memo.fetch_words words).0 (ground arith) in
              let same_override : memo.anisotropic_override ≡ override = ground arith in
              let same : memo.consensus ≡ direct plan f words override =
                held (ground arith)
                ∙ ap (λ k. direct plan f k memo.anisotropic_override) same_key
                ∙ ap (direct plan f words) same_override in
              ground (arith, same)
          | inr missed ↦ ground arith
        ]

  IsResolved-written :
      (plan : Plan) (f : ℕ) (words : List ℕ) (override : ℕ)
      → f < fetch_constants
      → IsResolved plan
      → IsResolved (record plan {
        sampler_memos = update plan.sampler_memos f (record {
          fetch_words = words;
          anisotropic_override = override;
          consensus = direct plan f words override;
          valid = true;
        });
      })
  unfolding samplers_of
  IsResolved-written plan f words override known resolved g h valid = elim (Bool-cases (f == g)) [
    | inl same ↦ rw same (ap (λ x. direct plan x words override) {x = f} {y = g} (ground arith))
    | inr differ ↦ rw differ (resolved g h (ground arith))
  ]

  -- For a known fetch constant, and memos that hold what their keys resolve to, the consensus is the
  -- one of a direct resolution, whether the memo was used or not, and the memos hold it again.
  pub resolve_sampler_lem :
      (plan : Plan) (stats : Stats) (f : ℕ) (words : List ℕ) (override : ℕ)
      → f < fetch_constants
      → IsResolved plan
      → ((resolve_sampler (resolve words override) plan stats f words override).0
          ≡ direct plan f words override)
        × IsResolved (resolve_sampler (resolve words override) plan stats f words override).1
  resolve_sampler_lem plan stats f words override known resolved =
      let (answer, plans) = memo_hit plan stats f words override known resolved in
      (
        answer,
        elim plans [
          | inl same ↦ subst IsResolved (sym same) resolved
          | inr written ↦
              subst IsResolved (sym written)
                (IsResolved-written plan f words override known resolved)
        ],
      )
