-- ===== src/Tests/Texts.antt =====
-- Concrete shader bodies and command lists.
use bolts_rebuilt.Prelude.{
  ℕ, ◌+◌, true, false, if◌then◌else◌, ◌≡◌, ◌⊎◌, List, [], ◌∷◌, ◌++◌, take, drop, none, some, refl,
}
use bolts_rebuilt.StaticBindings.{Four, new_bindings}
use bolts_rebuilt.StaticBindings.Root.{
  Root, Call, updates, writes_pixel, changes_heaps, unbound, set_signature, update_root,
  write_pixel, run, run-bound,
}
use bolts_rebuilt.AlphaTest.{statement, strip_alpha_test, find_from, starts_with, line_before}
use bolts_rebuilt.AlphaTest.Places.{StandsAlone}
use bolts_rebuilt.AlphaTest.Strip.{strip_alpha_test_lem}

abbrev body : List ℕ
body = 32 ∷ 32 ∷ (statement ++ 10 ∷ [])

strip_alpha_test-body : strip_alpha_test body ≡ (true, 32 ∷ 32 ∷ 59 ∷ 10 ∷ [])
unfolding strip_alpha_test find_from starts_with line_before
strip_alpha_test-body = refl

-- A second statement, or another character on the line, keeps the body.
strip_alpha_test-kept :
    (strip_alpha_test (body ++ body) ≡ (false, body ++ body))
    × (strip_alpha_test (65 ∷ body) ≡ (false, 65 ∷ body))
unfolding strip_alpha_test find_from starts_with line_before
strip_alpha_test-kept = (refl, refl)

strip_alpha_test_lem_example :
    ((n : ℕ) × StandsAlone body n
      × (strip_alpha_test body ≡ (true, take n body ++ 59 ∷ drop (n + 17) body)))
    ⊎ ((strip_alpha_test body ≡ (false, body)) × ((n : ℕ) → ¬ StandsAlone body n))
strip_alpha_test_lem_example = strip_alpha_test_lem body

abbrev empty_root : Root
empty_root = record { signature = 3; bound = unbound; pixel = some 7 }

abbrev wanted : Four ℕ
wanted = record { texture_table = 10; sampler_table = 21; guest_memory = 22; asset_memory = 13 }

-- A draw under the signature 5 and its pixel constants, then other heaps.
abbrev earlier_calls : List Call
earlier_calls =
    updates 5 wanted true true ∷ writes_pixel 5 4096 true ∷ changes_heaps none (some 1) ∷ []

run-bound_example :
    let s = run earlier_calls (new_bindings, empty_root) in
    let before = set_signature 6 s.1 in
    let updated = (update_root 6 wanted false true s).1 in
    let written = (write_pixel 6 4096 true s).1 in
    (updated ≡ record {
      signature = 6;
      bound = record {
        texture_table = some 10;
        sampler_table = if false then some 21 else before.bound.sampler_table;
        guest_memory = some 22;
        asset_memory = some 13;
      };
      pixel = before.pixel;
    })
    × (written ≡ record { signature = 6; bound = before.bound; pixel = some 4096 })
run-bound_example = run-bound earlier_calls empty_root 6 wanted false true 4096
