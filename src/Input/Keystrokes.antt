-- ===== src/Input/Keystrokes.antt =====
-- Polls of the pad and of the keystrokes.
use bolts_rebuilt.Prelude.{ℕ, ◌≡◌, refl, true, Option, none, some, arith}
use bolts_rebuilt.Input.{
  Driver, Result, queue_keystrokes, current_step, gamepad_of, same_step, get_device_state,
  scripted_device,
}

same_step_refl : (step : Option ℕ) → same_step step step ≡ true
same_step_refl none = refl
same_step_refl (some i) = ground arith

-- The two forms of a poll of the device, by whether the current step is the one polled last.
poll-same :
    (d : Driver) (now : ℕ)
    → same_step (current_step now d.steps 0 none) d.last_step ≡ true
    → get_device_state d scripted_device now ≡ (
      Result.success,
      some (gamepad_of d.steps (current_step now d.steps 0 none), d.packet_number),
      d,
    )
unfolding get_device_state
poll-same d now h = rw (get_device_state, h) refl

-- A second poll at the same time reports the same pad and packet number and changes nothing, and so
-- queues no keystroke again.
pub get_device_state-again :
    (d : Driver) (id now : ℕ)
    → get_device_state (get_device_state d id now).2 id now ≡ get_device_state d id now
unfolding get_device_state queue_keystrokes
get_device_state-again d id now = ground (arith, same_step_refl (current_step now d.steps 0 none))
