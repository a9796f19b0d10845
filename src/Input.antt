-- ===== src/Input.antt =====
-- The scripted controller of nb_scripted_input.cpp: the parsed steps, the state that a poll of the
-- pad reports and the keystrokes that a menu polls. Times are numbers of one unit, of which std::atof
-- reads a text and the steady clock gives the present one: both are parameters.
pub mod Parser
pub mod Keystrokes
use bolts_rebuilt.Prelude.{
  ℕ, zero, suc, ◌+◌, ◌%◌, ◌^◌, Bool, true, false, not, ◌&&◌, ◌||◌, Option, none, some, List, [],
  ◌∷◌, ◌++◌, ltb, leb, ◌==◌, if◌then◌else◌, get_or,
}
use bolts_rebuilt.Prelude.Bits.{bit}

-- The pad's own part of a step; an int16_t is its 16-bit pattern.
pub record Gamepad : Type 0 where
  pub buttons : ℕ
  pub left_trigger : ℕ
  pub right_trigger : ℕ
  pub thumb_lx : ℕ
  pub thumb_ly : ℕ
  pub thumb_rx : ℕ
  pub thumb_ry : ℕ

pub record ScriptedStep : Type 0 where
  pub at_seconds : ℕ
  pub text : List ℕ
  pub gamepad : Gamepad

abbrev pub no_gamepad : Gamepad
no_gamepad = record {
  buttons = 0;
  left_trigger = 0;
  right_trigger = 0;
  thumb_lx = 0;
  thumb_ly = 0;
  thumb_rx = 0;
  thumb_ry = 0;
}

-- The keys of the SDK's enumeration that the driver names.
pub data VirtualKey : Type 0 where
  no_key : VirtualKey
  dpad_up : VirtualKey
  dpad_down : VirtualKey
  dpad_left : VirtualKey
  dpad_right : VirtualKey
  start : VirtualKey
  back : VirtualKey
  left_thumb_press : VirtualKey
  right_thumb_press : VirtualKey
  left_shoulder : VirtualKey
  right_shoulder : VirtualKey
  pad_a : VirtualKey
  pad_b : VirtualKey
  pad_x : VirtualKey
  pad_y : VirtualKey

pub record Keystroke : Type 0 where
  pub virtual_key : VirtualKey
  pub pressed : Bool

-- `last_step` is `none` for SIZE_MAX.
pub record Driver : Type 0 where
  pub steps : List ScriptedStep
  pub last_step : Option ℕ
  pub last_buttons : ℕ
  pub packet_number : ℕ
  pub keystrokes : List Keystroke

-- kVirtualKeys, by the bit of the button; two of the bits have no key.
abbrev pub virtual_key : ℕ → VirtualKey
virtual_key bit_index =
    get_or
      (VirtualKey.dpad_up ∷ VirtualKey.dpad_down ∷ VirtualKey.dpad_left ∷ VirtualKey.dpad_right
        ∷ VirtualKey.start ∷ VirtualKey.back ∷ VirtualKey.left_thumb_press
        ∷ VirtualKey.right_thumb_press ∷ VirtualKey.left_shoulder ∷ VirtualKey.right_shoulder
        ∷ VirtualKey.no_key ∷ VirtualKey.no_key ∷ VirtualKey.pad_a ∷ VirtualKey.pad_b
        ∷ VirtualKey.pad_x ∷ VirtualKey.pad_y ∷ [])
      bit_index VirtualKey.no_key

-- The comparison of a key with kNone.
abbrev pub has_no_key : VirtualKey → Bool
has_no_key VirtualKey.no_key = true
has_no_key _ = false

-- The keystrokes for the bits that remain, from `bit_index` on.
pub keystrokes_from : (before after : ℕ) → (left bit_index : ℕ) → List Keystroke
keystrokes_from before after zero bit_index = []
keystrokes_from before after (suc left) bit_index =
    let rest = keystrokes_from before after left (bit_index + 1) in
    let pressed = bit after bit_index in
    let same = if bit before bit_index then pressed else not pressed in
    if has_no_key (virtual_key bit_index) || same
    then rest
    else record { virtual_key = virtual_key bit_index; pressed = pressed } ∷ rest

pub queue_keystrokes : Driver → (before after : ℕ) → Driver
queue_keystrokes driver before after = record driver {
  keystrokes = driver.keystrokes ++ keystrokes_from before after 16 0;
}

abbrev pub new_driver : List ScriptedStep → Driver
new_driver steps = record {
  steps = steps;
  last_step = none;
  last_buttons = 0;
  packet_number = 1;
  keystrokes = [];
}

-- The last step of the leading ones that are not after the present, counted from `index`.
pub current_step : (now : ℕ) → List ScriptedStep → (index : ℕ) → Option ℕ → Option ℕ
current_step now [] index found = found
current_step now (step ∷ steps) index found =
    let rest = current_step now steps (index + 1) (some index) in
    if ltb now step.at_seconds then found else rest

abbrev step_at : List ScriptedStep → ℕ → Gamepad
step_at [] i = no_gamepad
step_at (step ∷ steps) zero = step.gamepad
step_at (step ∷ steps) (suc i) = step_at steps i

abbrev pub gamepad_of : List ScriptedStep → Option ℕ → Gamepad
gamepad_of steps none = no_gamepad
gamepad_of steps (some i) = step_at steps i

abbrev pub same_step : Option ℕ → Option ℕ → Bool
same_step none none = true
same_step (some i) (some j) = i == j
same_step _ _ = false

abbrev pub scripted_device : ℕ
scripted_device = 0x4E425343

-- X_ERROR_SUCCESS, X_ERROR_DEVICE_NOT_CONNECTED and X_ERROR_EMPTY.
pub data Result : Type 0 where
  success : Result
  device_not_connected : Result
  empty : Result

-- GetDeviceState with an out_state: the reported gamepad and packet number, when there is one.
pub get_device_state : Driver → (id now : ℕ) → Result × Option (Gamepad × ℕ) × Driver
get_device_state driver id now =
    let step = current_step now driver.steps 0 none in
    let gamepad = gamepad_of driver.steps step in
    let queued = queue_keystrokes driver driver.last_buttons gamepad.buttons in
    let packet_number = (driver.packet_number + 1) % 2 ^ 32 in
    if not (id == scripted_device)
    then (Result.device_not_connected, none, driver)
    else if same_step step driver.last_step
    then (Result.success, some (gamepad, driver.packet_number), driver)
    else (
      Result.success,
      some (gamepad, packet_number),
      record queued {
        last_step = step;
        packet_number = packet_number;
        last_buttons = gamepad.buttons;
      },
    )

-- GetDeviceKeystroke with an out_keystroke.
pub get_device_keystroke : Driver → (id : ℕ) → Result × Option Keystroke × Driver
get_device_keystroke driver id =
    if not (id == scripted_device)
    then (Result.device_not_connected, none, driver)
    else elim driver.keystrokes [
      | [] ↦ (Result.empty, none, driver)
      | event ∷ events ↦ (Result.success, some event, record driver { keystrokes = events })
    ]

-- SetDeviceVibration.
pub set_device_vibration : (id : ℕ) → Result
set_device_vibration id =
    if id == scripted_device then Result.success else Result.device_not_connected
