-- ===== src/Constants/Layout.antt =====
-- The rest of native_constant_reuse.h and native_constant_layout.h: the reuse of the ready pipeline and
-- the checks of reflected bindings. A pipeline and an address are numbers, 0 for none.
use bolts_rebuilt.Prelude.{
  ℕ, ◌-◌, Bool, not, ◌&&◌, ◌||◌, List, [], ltb, leb, ◌==◌, if◌then◌else◌, same_words,
}

-- NativeReadyPipelineReuse: the last key of twenty words and its pipeline.
pub record PipelineReuse : Type 0 where
  pub words : List ℕ
  pub value : ℕ

pub new_pipeline_reuse : PipelineReuse
new_pipeline_reuse = record { words = []; value = 0 }

pub find_pipeline : PipelineReuse → List ℕ → ℕ
find_pipeline reuse words =
    if not (reuse.value == 0) && same_words reuse.words words then reuse.value else 0

pub publish_pipeline : PipelineReuse → List ℕ → ℕ → PipelineReuse
publish_pipeline reuse words value =
    if value == 0 then reuse else record { words = words; value = value }

pub reset_pipeline : PipelineReuse → PipelineReuse
reset_pipeline reuse = record reuse { value = 0 }

-- NativeBindingCoversPixelConstants.
pub covers_pixel_constants : (space first count : ℕ) → Bool
covers_pixel_constants space first count =
    space == 0 && (count == 0 || (leb first 2 && ltb (2 - first) count))

-- NativeDepthOnlyPixelAddress.
pub depth_only_pixel_address : (enabled pixel_buffer_unused : Bool) → (vertex_address : ℕ) → ℕ
depth_only_pixel_address enabled pixel_buffer_unused vertex_address =
    if enabled && pixel_buffer_unused then vertex_address else 0

pub data BindingMatch : Type 0 where
  ignored : BindingMatch
  exact : BindingMatch
  ambiguous : BindingMatch

-- NativeConstantHeaderBindingMatch.
pub header_binding_match : (space first count target : ℕ) → BindingMatch
header_binding_match space first count target =
    if not (space == 0)
    then BindingMatch.ignored
    else if count == 0
    then BindingMatch.ambiguous
    else if ltb target first || leb count (target - first)
    then BindingMatch.ignored
    else if count == 1
    then BindingMatch.exact
    else BindingMatch.ambiguous

-- NativeConstantVariableFitsHeader.
pub variable_fits_header : (used : Bool) → (start size header_bytes : ℕ) → Bool
variable_fits_header used start size header_bytes =
    not used || (not (size == 0) && leb start header_bytes && leb size (header_bytes - start))
