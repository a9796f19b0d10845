-- ===== src/AlphaTest.antt =====
-- native_alpha_test_variant.h: the statement that a variant of a pixel shader leaves out, the choice
-- of the variant for a draw and the admission of its compiles. A text is its characters' codes.
pub mod Places
pub mod Strip
use bolts_rebuilt.Prelude.{
  ℕ, zero, suc, ◌+◌, ◌-◌, ◌≤◌, ◌<◌, ◌≡◌, Bool, true, false, not, ◌&&◌, ◌||◌, List, [], ◌∷◌, ltb,
  leb, ◌==◌, if◌then◌else◌, bit_and, bit_or, length, get_elem?, take, drop, same_words, Option,
  none, some, ◌++◌, get_or, arith,
}

-- "AlphaTest(oC0.w);".
abbrev pub statement : List ℕ
statement =
    65 ∷ 108 ∷ 112 ∷ 104 ∷ 97 ∷ 84 ∷ 101 ∷ 115 ∷ 116 ∷ 40 ∷ 111 ∷ 67 ∷ 48 ∷ 46 ∷ 119 ∷ 41 ∷ 59 ∷ []

unfoldable pub starts_with : List ℕ → List ℕ → Bool
starts_with [] text = true
starts_with (c ∷ part) [] = false
starts_with (c ∷ part) (d ∷ text) = c == d && starts_with part text

-- std::string::find: the first position at or after the `index` that the text starts at.
unfoldable pub find_from : List ℕ → (part : List ℕ) → (index : ℕ) → Option ℕ
find_from [] part index = if starts_with part [] then some index else none
find_from (c ∷ text) part index =
    let rest = find_from text part (index + 1) in
    if starts_with part (c ∷ text) then some index else rest

abbrev pub is_blank : ℕ → Bool
is_blank c = c == 32 || c == 9

-- The start of the line before `at`, past its indentation.
unfoldable pub line_before : List ℕ → (at : ℕ) → ℕ
line_before body zero = zero
line_before body (suc line) =
    let rest = line_before body line in if is_blank (get_or body line 0) then rest else suc line

abbrev pub at_line_start : List ℕ → ℕ → Bool
at_line_start body line = line == 0 || get_or body (line - 1) 0 == 10

abbrev pub at_line_end : List ℕ → ℕ → Bool
at_line_end body at =
    let end = if ltb at (length body) && get_or body at 0 == 13 then at + 1 else at in
    not (ltb end (length body)) || get_or body end 0 == 10

-- The answer, and the body with the statement replaced by ";".
unfoldable pub strip_alpha_test : List ℕ → Bool × List ℕ
strip_alpha_test body = elim (find_from body statement 0) [
  | none ↦ (false, body)
  | some at ↦
      let again = find_from (drop (at + 1) body) statement (at + 1) in
      let stripped = take at body ++ 59 ∷ drop (at + 17) body in
      elim again [
        | some other ↦ (false, body)
        | none ↦
            if not (at_line_start body (line_before body at))
            then (false, body)
            else if not (at_line_end body (at + 17))
            then (false, body)
            else (true, stripped)
      ]
]

-- NativeAlphaTestVariantSidecar: the keys "kills" and "writes_depth" with the value "0".
pub record Sidecar : Type 0 where
  pub no_kill : Bool
  pub no_depth : Bool

pub new_sidecar : Sidecar
new_sidecar = record { no_kill = false; no_depth = false }

abbrev pub kills_key : List ℕ
kills_key = 107 ∷ 105 ∷ 108 ∷ 108 ∷ 115 ∷ []

abbrev pub writes_depth_key : List ℕ
writes_depth_key = 119 ∷ 114 ∷ 105 ∷ 116 ∷ 101 ∷ 115 ∷ 95 ∷ 100 ∷ 101 ∷ 112 ∷ 116 ∷ 104 ∷ []

pub observe : Sidecar → (key value : List ℕ) → Sidecar
observe sidecar key value =
    if same_words key kills_key
    then record sidecar { no_kill = same_words value (48 ∷ []) }
    else if same_words key writes_depth_key
    then record sidecar { no_depth = same_words value (48 ∷ []) }
    else sidecar

pub eligible : Sidecar → Bool
eligible sidecar = sidecar.no_kill && sidecar.no_depth

pub can_discard : ℕ → Bool
can_discard alpha_test = not (bit_and alpha_test 8 == 0) && not (bit_and alpha_test 7 == 7)

pub early_depth_stencil_can_help :
    (dsv_bound : Bool) (depthcontrol stencil_ref_mask : ℕ) (alpha_to_mask : Bool) (sample_count : ℕ)
    → Bool
early_depth_stencil_can_help dsv_bound depthcontrol stencil_ref_mask alpha_to_mask sample_count =
    let depth_write = bit_and depthcontrol 0x6 == 0x6 in
    let stencil_ops =
      bit_or 0x000FF800 (if not (bit_and depthcontrol 0x80 == 0) then 0xFF800000 else 0) in
    let stencil_write =
      not (bit_and depthcontrol 0x1 == 0)
      && not (bit_and stencil_ref_mask 0x00FF0000 == 0)
      && not (bit_and depthcontrol stencil_ops == 0) in
    if not dsv_bound || (alpha_to_mask && ltb 1 sample_count)
    then false
    else depth_write || stencil_write

pub variant_selected :
    (alpha_test : ℕ) (dsv_bound : Bool) (depthcontrol stencil_ref_mask : ℕ) (alpha_to_mask : Bool)
    (sample_count : ℕ)
    → Bool
variant_selected alpha_test dsv_bound depthcontrol stencil_ref_mask alpha_to_mask sample_count =
    not (can_discard alpha_test)
    && early_depth_stencil_can_help dsv_bound depthcontrol stencil_ref_mask alpha_to_mask
        sample_count

-- The variants in flight are among those in flight, so the difference does not wrap.
pub base_slot_free : (in_flight variant_in_flight cap : ℕ) → Bool
base_slot_free in_flight variant_in_flight cap = ltb (in_flight - variant_in_flight) cap

pub compile_admitted : (in_flight variant_in_flight cap : ℕ) → Bool
compile_admitted in_flight variant_in_flight cap = variant_in_flight == 0 && ltb in_flight cap

abbrev pub pipelines_in_flight : ℕ
pipelines_in_flight = 2

pub pipeline_admitted : (pass_in_flight variant_in_flight : ℕ) → Bool
pipeline_admitted pass_in_flight variant_in_flight =
    pass_in_flight == 0 && ltb variant_in_flight pipelines_in_flight
