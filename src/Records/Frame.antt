-- ===== src/Records/Frame.antt =====
-- The calls of NbCpRecorder over a frame: RecordDraw, RecordCopy and EndFrameAndFlush of
-- src/gpu/nb_cp_records.cpp. `now` is the clock's answer; the counters of a frame are not wrapped.
use bolts_rebuilt.Prelude.{
  ℕ, ◌+◌, Bool, true, false, not, ◌&&◌, ◌||◌, Option, none, some, List, [], ◌∷◌, ◌++◌, length, leb,
  ltb, if◌then◌else◌,
}
use bolts_rebuilt.Records.{
  Registers, Shader, RenderState, State, draw, copy, frame_stats, DrawInfo, Record, Recorder,
  frame_buffer_max, ucode_hash, vfetch_of, tfetch_of, first_eight, render_state, VFetch, TFetch,
}

abbrev vfetches : Option Registers → Option Shader → List VFetch
vfetches none vs = []
vfetches (some regs) none = []
vfetches (some regs) (some shader) = first_eight (vfetch_of regs) shader.vertex_bindings []

abbrev tfetches : Option Registers → Option Shader → List TFetch
tfetches none ps = []
tfetches (some regs) none = []
tfetches (some regs) (some shader) = first_eight (tfetch_of regs) shader.texture_bindings []

abbrev states : Option Registers → Option RenderState
states none = none
states (some regs) = some (render_state regs)

-- FillState.
unfoldable pub fill_state : Option Registers → (vs ps : Option Shader) → (now : ℕ) → State
unfolding first_eight
fill_state regs vs ps now = record {
  ts_ns = now;
  vs_ucode_hash = ucode_hash vs;
  ps_ucode_hash = ucode_hash ps;
  registers = states regs;
  vfetch = vfetches regs vs;
  tfetch = tfetches regs ps;
}

-- NextSlot, with the record that the caller writes into the slot.
abbrev next_slot : Recorder → Record → Bool × Recorder
next_slot r rec =
    if leb frame_buffer_max (length r.buffer)
    then (false, record r { dropped = r.dropped + 1 })
    else (true, record r { buffer = r.buffer ++ rec ∷ [] })

unfoldable pub record_draw : Recorder → (frame : ℕ) → DrawInfo → State → Recorder
record_draw r frame info state =
    let (kept, r') = next_slot r (record {
      kind = draw;
      frame = frame;
      sequence = r.sequence;
      copies_before = r.copies;
      info = some info;
      state = state;
    }) in
    if kept then record r' { sequence = r.sequence + 1 } else r'

unfoldable pub record_copy : Recorder → (frame : ℕ) → State → Recorder
record_copy r frame state =
    let (kept, r') = next_slot r (record {
      kind = copy;
      frame = frame;
      sequence = r.sequence;
      copies_before = r.copies;
      info = none;
      state = state;
    }) in
    record r' { copies = r.copies + 1 }

abbrev stats_state : ℕ → State
stats_state now = record {
  ts_ns = now;
  vs_ucode_hash = 0;
  ps_ucode_hash = 0;
  registers = none;
  vfetch = [];
  tfetch = [];
}

-- The record of the whole frame, which takes the last slot if there is one.
abbrev pub stats_record : Recorder → (frame now : ℕ) → Record
stats_record r frame now = record {
  kind = frame_stats;
  frame = frame;
  sequence = r.sequence;
  copies_before = r.copies;
  info = none;
  state = stats_state now;
}

abbrev emptied : Recorder → Recorder
emptied r = record r { buffer = []; sequence = 0; copies = 0 }

-- EndFrameAndFlush; `opens` says whether OpenFile would open the file.
unfoldable pub end_frame : Recorder → (frame now : ℕ) → (opens : Bool) → Recorder
end_frame r frame now opens =
    let full =
      if ltb (length r.buffer) frame_buffer_max
      then r.buffer ++ stats_record r frame now ∷ []
      else r.buffer in
    let tries = not r.file_open && not r.open_attempted in
    let is_open = r.file_open || (tries && opens) in
    if leb (length r.buffer) 0
    then emptied r
    else emptied (record r {
      open_attempted = r.open_attempted || tries;
      file_open = is_open;
      written = if is_open then r.written ++ full else r.written;
    })
