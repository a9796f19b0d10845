-- ===== src/Tests/Bindings.antt =====
-- A concrete shader's bindings.
use bolts_rebuilt.Prelude.{ℕ, ◌+◌, ◌≡◌, false, List, [], ◌∷◌, arith, get_or}
use bolts_rebuilt.Bindings.{Binding, Plan, Stats, read_range, group, resolve_sampler, no_consensus}
use bolts_rebuilt.Bindings.Grouping.{bindings_of, group-bindings_of}
use bolts_rebuilt.Bindings.Samplers.{direct, IsResolved, resolve_sampler_lem}

abbrev unbound : Binding
unbound = record { fetch_constant = 0; identity = 0 }

abbrev three_bindings : List Binding
three_bindings =
    record { fetch_constant = 5; identity = 1 }
    ∷ record { fetch_constant = 2; identity = 2 }
    ∷ record { fetch_constant = 5; identity = 3 }
    ∷ []

group-bindings_of_example :
    read_range
      (group three_bindings (λ i. unbound)).0
      ((group three_bindings (λ i. unbound)).1 5).start
      ((group three_bindings (λ i. unbound)).1 5).count
    ≡ bindings_of 5 three_bindings
group-bindings_of_example = group-bindings_of three_bindings (λ i. unbound) 5

abbrev plan : Plan
plan = record {
  shader = 64;
  textures = λ i. unbound;
  samplers = (group three_bindings (λ i. unbound)).0;
  texture_ranges = λ f. record { start = 0; count = 0 };
  sampler_ranges = (group three_bindings (λ i. unbound)).1;
  sampler_memos = λ f. record {
    fetch_words = [];
    anisotropic_override = 0;
    consensus = no_consensus;
    valid = false;
  };
}

abbrev stats : Stats
stats = record {
  plan_hits = 0;
  plan_misses = 0;
  plan_bypasses = 0;
  resets = 0;
  sampler_hits = 0;
  sampler_misses = 0;
  sampler_resolutions = 0;
}

-- A resolution that reads the first fetch word and the binding.
abbrev sampler_value : List ℕ → ℕ → ℕ → ℕ
sampler_value words override identity = get_or words 0 0 + identity

resolve_sampler_lem_example :
    ((resolve_sampler (sampler_value (9 ∷ []) 1) plan stats 5 (9 ∷ []) 1).0
      ≡ direct sampler_value plan 5 (9 ∷ []) 1)
    × IsResolved sampler_value
        (resolve_sampler (sampler_value (9 ∷ []) 1) plan stats 5 (9 ∷ []) 1).1
resolve_sampler_lem_example =
    resolve_sampler_lem sampler_value plan stats 5 (9 ∷ []) 1 (omega arith) (λ f h valid. cc)
