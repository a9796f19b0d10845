-- ===== src/Input/Parser.antt =====
-- The parser of a script in nb_scripted_input.cpp. A text is its characters' codes; std::atoi, with
-- its sign as the second part, and std::atof are parameters.
use bolts_rebuilt.Prelude.{
  ℕ, ◌-◌, Bool, true, false, ◌&&◌, Option, none, some, List, [], ◌∷◌, ◌++◌, map, leb, ◌==◌,
  if◌then◌else◌, bit_or, min, same_words,
}
use bolts_rebuilt.Input.{Gamepad, ScriptedStep, no_gamepad}

-- std::toupper in the C locale.
abbrev upper_char : ℕ → ℕ
upper_char c = if leb 97 c && leb c 122 then c - 32 else c

pub upper : List ℕ → List ℕ
upper text = map upper_char text

-- The parts between the separators, less the spaces; `current` is the part read so far.
pub split_from : List ℕ → (separator : ℕ) → (current : List ℕ) → List (List ℕ)
split_from [] separator current = current ∷ []
split_from (c ∷ text) separator current =
    let next = split_from text separator [] in
    let rest = split_from text separator (current ++ c ∷ []) in
    let skipped = split_from text separator current in
    if c == separator then current ∷ next else if c == 32 then skipped else rest

pub split : List ℕ → ℕ → List (List ℕ)
split text separator = split_from text separator []

-- The text before the first separator and the text after it, if there is one.
pub cut : List ℕ → (separator : ℕ) → Option (List ℕ × List ℕ)
cut [] separator = none
cut (c ∷ text) separator =
    let rest = cut text separator in
    if c == separator
    then some ([], text)
    else elim rest [ none ↦ none | some (before, after) ↦ some (c ∷ before, after) ]

-- std::clamp of an integer, negative with `true`: to an int16_t pattern and to a uint8_t.
abbrev clamp_thumb : Bool × ℕ → ℕ
clamp_thumb (true, n) = if n == 0 then 0 else 65536 - min n 32768
clamp_thumb (false, n) = min n 32767

abbrev clamp_trigger : Bool × ℕ → ℕ
clamp_trigger (true, n) = 0
clamp_trigger (false, n) = min n 255

-- The buttons of the table, whose X_INPUT_GAMEPAD bits are the SDK's.
pub data Button : Type 0 where
  a : Button
  b : Button
  x : Button
  y : Button
  start : Button
  back : Button
  left_shoulder : Button
  right_shoulder : Button
  left_thumb : Button
  right_thumb : Button
  dpad_up : Button
  dpad_down : Button
  dpad_left : Button
  dpad_right : Button

abbrev pub button_names : List (List ℕ × Button)
button_names =
    (65 ∷ [], Button.a)
    ∷ (66 ∷ [], Button.b)
    ∷ (88 ∷ [], Button.x)
    ∷ (89 ∷ [], Button.y)
    ∷ (83 ∷ 84 ∷ 65 ∷ 82 ∷ 84 ∷ [], Button.start)
    ∷ (66 ∷ 65 ∷ 67 ∷ 75 ∷ [], Button.back)
    ∷ (76 ∷ 66 ∷ [], Button.left_shoulder)
    ∷ (82 ∷ 66 ∷ [], Button.right_shoulder)
    ∷ (76 ∷ 83 ∷ [], Button.left_thumb)
    ∷ (82 ∷ 83 ∷ [], Button.right_thumb)
    ∷ (85 ∷ 80 ∷ [], Button.dpad_up)
    ∷ (68 ∷ 79 ∷ 87 ∷ 78 ∷ [], Button.dpad_down)
    ∷ (76 ∷ 69 ∷ 70 ∷ 84 ∷ [], Button.dpad_left)
    ∷ (82 ∷ 73 ∷ 71 ∷ 72 ∷ 84 ∷ [], Button.dpad_right)
    ∷ []

pub find_button : List ℕ → List (List ℕ × Button) → Option Button
find_button name [] = none
find_button name ((text, button) ∷ buttons) =
    let rest = find_button name buttons in if same_words name text then some button else rest

pub apply_axis : (axis : List ℕ) → Bool × ℕ → Gamepad → Option Gamepad
apply_axis axis value pad =
    if same_words axis (76 ∷ 88 ∷ [])
    then some (record pad { thumb_lx = clamp_thumb value })
    else if same_words axis (76 ∷ 89 ∷ [])
    then some (record pad { thumb_ly = clamp_thumb value })
    else if same_words axis (82 ∷ 88 ∷ [])
    then some (record pad { thumb_rx = clamp_thumb value })
    else if same_words axis (82 ∷ 89 ∷ [])
    then some (record pad { thumb_ry = clamp_thumb value })
    else if same_words axis (76 ∷ 84 ∷ [])
    then some (record pad { left_trigger = clamp_trigger value })
    else if same_words axis (82 ∷ 84 ∷ [])
    then some (record pad { right_trigger = clamp_trigger value })
    else none

-- The stable sort by time: an entry goes before the later ones of its own time.
pub insert_step : ScriptedStep → List ScriptedStep → List ScriptedStep
insert_step step [] = step ∷ []
insert_step step (other ∷ steps) =
    let rest = insert_step step steps in
    if leb step.at_seconds other.at_seconds then step ∷ other ∷ steps else other ∷ rest

pub sort_steps : List ScriptedStep → List ScriptedStep
sort_steps [] = []
sort_steps (step ∷ steps) = insert_step step (sort_steps steps)

abbrev sorted : Bool × List ScriptedStep → Bool × List ScriptedStep
sorted (true, steps) = (true, sort_steps steps)
sorted (false, steps) = (false, steps)

module _ (atoi : List ℕ → Bool × ℕ) (atof : List ℕ → ℕ) (mask_of : Button → ℕ) where
  -- ApplyKey: the pad with the key applied, or `none` for an unknown key.
  pub apply_key : List ℕ → Gamepad → Option Gamepad
  apply_key key pad = elim (cut key 61) [
    | some parts ↦ apply_axis (upper parts.0) (atoi parts.1) pad
    | none ↦ elim (find_button (upper key) button_names) [
      | none ↦ none
      | some button ↦ some (record pad { buttons = bit_or pad.buttons (mask_of button) })
    ]
  ]

  pub apply_keys : List (List ℕ) → Gamepad → Option Gamepad
  apply_keys [] pad = some pad
  apply_keys ([] ∷ keys) pad = apply_keys keys pad
  apply_keys ((c ∷ key) ∷ keys) pad = elim (apply_key (c ∷ key) pad) [
    | none ↦ none
    | some applied ↦ apply_keys keys applied
  ]

  -- One entry: its step, or `none` when it has no colon or an unknown key.
  pub parse_entry : List ℕ → Option ScriptedStep
  parse_entry entry = elim (cut entry 58) [
    | none ↦ none
    | some parts ↦ elim (apply_keys (split parts.1 43) no_gamepad) [
      | none ↦ none
      | some pad ↦ some (record { at_seconds = atof parts.0; text = parts.1; gamepad = pad })
    ]
  ]

  -- The steps of the entries up to the first malformed one, and whether there was none.
  pub parse_entries : List (List ℕ) → (out : List ScriptedStep) → Bool × List ScriptedStep
  parse_entries [] out = (true, out)
  parse_entries ([] ∷ entries) out = parse_entries entries out
  parse_entries ((c ∷ entry) ∷ entries) out = elim (parse_entry (c ∷ entry)) [
    | none ↦ (false, out)
    | some step ↦ parse_entries entries (out ++ step ∷ [])
  ]

  -- Parse: only an accepted script is sorted.
  pub parse : List ℕ → Bool × List ScriptedStep
  parse script = sorted (parse_entries (split script 44) [])
