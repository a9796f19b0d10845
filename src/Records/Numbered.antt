-- ===== src/Records/Numbered.antt =====
-- The records of a frame against its calls: what each one is numbered, what is dropped, and what is
-- written.
use bolts_rebuilt.Prelude.{
  ℕ, zero, suc, ◌+◌, ◌-◌, ◌<◌, ◌≤◌, ◌≡◌, refl, sym, ap, ◌∙◌, Bool, false, not, ◌&&◌, ◌||◌, none,
  some, List, [], ◌∷◌, ◌++◌, length, ltb, if◌then◌else◌, arith, length-append, take, length-take,
  min, ltb→lt, inl, inr, Bool-cases,
}
use mathlib.Core.Path.{subst}
use mathlib.Core.List.{append_assoc, append-nil}
use bolts_rebuilt.Records.{State, draw, copy, DrawInfo, Record, Recorder, frame_buffer_max}
use bolts_rebuilt.Records.Frame.{record_draw, record_copy, end_frame, stats_record}

-- The calls of the command processor within a frame.
pub data Call : Type 0 where
  draws : DrawInfo → State → Call
  copies : State → Call

unfoldable pub call : Recorder → (frame : ℕ) → Call → Recorder
call r frame (draws info state) = record_draw r frame info state
call r frame (copies state) = record_copy r frame state

unfoldable pub calls : Recorder → (frame : ℕ) → List Call → Recorder
calls r frame [] = r
calls r frame (c ∷ cs) = calls (call r frame c) frame cs

-- The records of calls when none is dropped: a draw is numbered by the draws before it, each record
-- has the copies before it.
abbrev pub numbered : (frame draws_before copies_before : ℕ) → List Call → List Record
numbered frame d c [] = []
numbered frame d c (draws info state ∷ cs) =
    record {
      kind = draw;
      frame = frame;
      sequence = d;
      copies_before = c;
      info = some info;
      state = state;
    }
    ∷ numbered frame (d + 1) c cs
numbered frame d c (copies state ∷ cs) =
    record {
      kind = copy;
      frame = frame;
      sequence = d;
      copies_before = c;
      info = none;
      state = state;
    }
    ∷ numbered frame d (c + 1) cs

abbrev pub draw_count : List Call → ℕ
draw_count [] = 0
draw_count (draws _ _ ∷ cs) = draw_count cs + 1
draw_count (copies _ ∷ cs) = draw_count cs

abbrev pub copy_count : List Call → ℕ
copy_count [] = 0
copy_count (draws _ _ ∷ cs) = copy_count cs
copy_count (copies _ ∷ cs) = copy_count cs + 1

-- What the calls leave of a recorder with room for `room` records.
abbrev After : Recorder → (frame room : ℕ) → List Call → Recorder → Type 0
After r frame room cs q =
    (q.buffer ≡ r.buffer ++ numbered frame r.sequence r.copies (take room cs))
    × (q.sequence ≡ r.sequence + draw_count (take room cs))
    × (q.copies ≡ r.copies + copy_count cs)
    × (q.dropped ≡ r.dropped + (length cs - room))
    × (q.file_open ≡ r.file_open)
    × (q.open_attempted ≡ r.open_attempted)
    × (q.written ≡ r.written)

call-full :
    (r : Recorder) (frame : ℕ) (c : Call)
    → length r.buffer ≡ frame_buffer_max
    → call r frame c ≡ record r { dropped = r.dropped + 1; copies = r.copies + copy_count (c ∷ []) }
unfolding call record_draw record_copy
call-full r frame (draws info state) full = ground arith
call-full r frame (copies state) full = ground arith

call-room :
    (r : Recorder) (frame : ℕ) (c : Call)
    → length r.buffer < frame_buffer_max
    → call r frame c ≡ record r {
      buffer = r.buffer ++ numbered frame r.sequence r.copies (c ∷ []);
      sequence = r.sequence + draw_count (c ∷ []);
      copies = r.copies + copy_count (c ∷ []);
    }
unfolding call record_draw record_copy
call-room r frame (draws info state) room = ground arith
call-room r frame (copies state) room = ground arith

length-one : (frame d n : ℕ) (c : Call) → length (numbered frame d n (c ∷ [])) ≡ 1
length-one frame d n (draws info state) = refl
length-one frame d n (copies state) = refl

draw_count-cons :
    (c : Call) (cs : List Call) → draw_count (c ∷ cs) ≡ draw_count (c ∷ []) + draw_count cs
draw_count-cons (draws info state) cs = omega arith
draw_count-cons (copies state) cs = omega arith

copy_count-cons :
    (c : Call) (cs : List Call) → copy_count (c ∷ cs) ≡ copy_count (c ∷ []) + copy_count cs
copy_count-cons (draws info state) cs = omega arith
copy_count-cons (copies state) cs = omega arith

numbered-cons :
    (frame d n : ℕ) (c : Call) (cs : List Call)
    → numbered frame d n (c ∷ cs)
      ≡ numbered frame d n (c ∷ [])
        ++ numbered frame (d + draw_count (c ∷ [])) (n + copy_count (c ∷ [])) cs
numbered-cons frame d n (draws info state) cs =
    let e : n ≡ n + 0 = omega arith in
    ap (λ (k : ℕ). numbered frame d n (draws info state ∷ []) ++ numbered frame (d + 1) k cs) e
numbered-cons frame d n (copies state) cs =
    let e : d ≡ d + 0 = omega arith in
    ap (λ (k : ℕ). numbered frame d n (copies state ∷ []) ++ numbered frame k (n + 1) cs) e

-- A call behind a full buffer, and one with room.
full_step :
    (r : Recorder) (frame : ℕ) (c : Call) (cs : List Call) (q : Recorder)
    → After
        (record r { dropped = r.dropped + 1; copies = r.copies + copy_count (c ∷ []) })
        frame
        zero
        cs
        q
    → After r frame zero (c ∷ cs) q
full_step r frame (draws info state) cs q (b, s, n, d, o, a, w) =
    (b, s, omega arith, omega arith, o, a, w)
full_step r frame (copies state) cs q (b, s, n, d, o, a, w) =
    (b, s, omega arith, omega arith, o, a, w)

room_step :
    (r : Recorder) (frame room : ℕ) (c : Call) (cs : List Call) (q : Recorder)
    → After
        (record r {
          buffer = r.buffer ++ numbered frame r.sequence r.copies (c ∷ []);
          sequence = r.sequence + draw_count (c ∷ []);
          copies = r.copies + copy_count (c ∷ []);
        })
        frame
        room
        cs
        q
    → After r frame (suc room) (c ∷ cs) q
room_step r frame room c cs q (b, s, n, d, o, a, w) = (
  b
      ∙ (append_assoc r.buffer (numbered frame r.sequence r.copies (c ∷ [])) _
          ∙ ap (λ (l : List Record). r.buffer ++ l)
              (sym (numbered-cons frame r.sequence r.copies c (take room cs)))),
  s ∙ omega (arith, draw_count-cons c (take room cs)),
  n ∙ omega (arith, copy_count-cons c cs),
  omega arith,
  o,
  a,
  w,
)

calls-After :
    (r : Recorder) (frame room : ℕ) (cs : List Call)
    → length r.buffer + room ≡ frame_buffer_max
    → After r frame room cs (calls r frame cs)
unfolding calls
calls-After r frame zero [] fits =
    (sym (append-nil r.buffer), omega arith, omega arith, omega arith, refl, refl, refl)
calls-After r frame (suc room) [] fits =
    (sym (append-nil r.buffer), omega arith, omega arith, omega arith, refl, refl, refl)
calls-After r frame zero (c ∷ cs) fits =
    subst (λ q. After r frame zero (c ∷ cs) (calls q frame cs))
      (sym (call-full r frame c (omega arith)))
      (let after =
          calls-After
            (record r { dropped = r.dropped + 1; copies = r.copies + copy_count (c ∷ []) }) frame
            zero cs fits in
        full_step r frame c cs _ after)
calls-After r frame (suc room) (c ∷ cs) fits =
    subst (λ q. After r frame (suc room) (c ∷ cs) (calls q frame cs))
      (sym (call-room r frame c (omega arith)))
      (let after =
          calls-After
            (record r {
              buffer = r.buffer ++ numbered frame r.sequence r.copies (c ∷ []);
              sequence = r.sequence + draw_count (c ∷ []);
              copies = r.copies + copy_count (c ∷ []);
            })
            frame room cs
            (omega (
              arith,
              length-append r.buffer (numbered frame r.sequence r.copies (c ∷ [])),
              length-one frame r.sequence r.copies c,
            )) in
        room_step r frame room c cs _ after)

length-numbered : (frame d n : ℕ) (cs : List Call) → length (numbered frame d n cs) ≡ length cs
length-numbered frame d n [] = refl
length-numbered frame d n (draws info state ∷ cs) = ap suc (length-numbered frame (d + 1) n cs)
length-numbered frame d n (copies state ∷ cs) = ap suc (length-numbered frame d (n + 1) cs)

take-all : (n : ℕ) (cs : List Call) → length cs ≤ n → take n cs ≡ cs
take-all zero [] h = refl
take-all zero (c ∷ cs) h = absurd (omega arith)
take-all (suc n) [] h = refl
take-all (suc n) (c ∷ cs) h = ap (λ (l : List Call). c ∷ l) (take-all n cs (omega arith))

-- The record of a frame of these calls.
abbrev pub stats_of : (frame now : ℕ) → List Call → Record
stats_of frame now cs =
    stats_record
      (record {
        buffer = [];
        sequence = draw_count cs;
        copies = copy_count cs;
        dropped = 0;
        file_open = false;
        open_attempted = false;
        written = [];
      })
      frame now

-- The records of a frame of these calls: as many as there are slots, and its statistics if one is left.
abbrev pub frame_records : (room frame now : ℕ) → List Call → List Record
frame_records room frame now cs =
    numbered frame 0 0 (take room cs)
    ++ (if ltb (length cs) room then stats_of frame now cs ∷ [] else [])

min_length : (room : ℕ) (cs : List Call) → length (take room cs) ≡ min room (length cs)
min_length room cs = length-take room cs

-- What the end of the frame writes, given what the calls left.
end_frame-written :
    (q : Recorder) (frame now room : ℕ) (opens : Bool) (cs : List Call) (full : List Record)
    → room ≡ frame_buffer_max
    → 1 ≤ length cs
    → q.buffer ≡ full
    → length full ≡ min room (length cs)
    → (length cs < room → stats_record q frame now ≡ stats_of frame now cs)
    → (end_frame q frame now opens).written ≡ (
        if q.file_open || (not q.open_attempted && opens)
        then q.written
          ++ (full ++ (if ltb (length cs) room then stats_of frame now cs ∷ [] else []))
        else q.written)
unfolding end_frame
end_frame-written q frame now room opens cs full is_max some_call b sized same =
    let counted : length q.buffer ≡ min room (length cs) =
      ap (λ (l : List Record). length l) b ∙ sized in
    elim (Bool-cases (ltb (length cs) room)) [
      | inl below ↦ let stats = same (ltb→lt _ _ below) in ground arith
      | inr above ↦ ground (arith, append-nil full)
    ]

end_frame-rest :
    (q : Recorder) (frame now : ℕ) (opens : Bool)
    → ((end_frame q frame now opens).dropped ≡ q.dropped)
      × ((end_frame q frame now opens).buffer ≡ [])
      × ((end_frame q frame now opens).sequence ≡ 0)
      × ((end_frame q frame now opens).copies ≡ 0)
unfolding end_frame
end_frame-rest q frame now opens = ground arith

zero_plus : (n : ℕ) → 0 + n ≡ n
zero_plus n = omega arith

stats_equal :
    (q : Recorder) (frame now : ℕ) (cs : List Call)
    → q.sequence ≡ draw_count cs
    → q.copies ≡ copy_count cs
    → stats_record q frame now ≡ stats_of frame now cs
stats_equal q frame now cs s n = ground arith

-- A frame of at least one call, of a recorder whose buffer and counters are empty: the file, if it is
-- open or is opened now, gets one record for each of the first 65536 calls, numbered by the draws and
-- copies before it, and the statistics of all calls if a slot is left. The other calls are counted as
-- dropped, and buffer and counters are empty again.
pub end_frame-calls :
    (r : Recorder) (frame now room : ℕ) (opens : Bool) (cs : List Call)
    → room ≡ frame_buffer_max
    → 1 ≤ length cs
    → r.buffer ≡ []
    → r.sequence ≡ 0
    → r.copies ≡ 0
    → let q = end_frame (calls r frame cs) frame now opens in
      (q.written ≡ (
        if r.file_open || (not r.open_attempted && opens)
        then r.written ++ frame_records room frame now cs
        else r.written))
      × (q.dropped ≡ r.dropped + (length cs - room))
      × (q.buffer ≡ [])
      × (q.sequence ≡ 0)
      × (q.copies ≡ 0)
end_frame-calls r frame now room opens cs is_max some_call empty s0 c0 =
    let (b, s, n, d, o, a, w) =
      calls-After r frame room cs (ap (λ (l : List Record). length l + room) empty ∙ omega arith) in
    let full : (calls r frame cs).buffer ≡ numbered frame 0 0 (take room cs) =
      b
      ∙ (ap (λ (l : List Record). l ++ numbered frame r.sequence r.copies (take room cs)) empty
          ∙ (ap (λ (k : ℕ). numbered frame k r.copies (take room cs)) s0
              ∙ ap (λ (k : ℕ). numbered frame 0 k (take room cs)) c0)) in
    let last =
      end_frame-written (calls r frame cs) frame now room opens cs
        (numbered frame 0 0 (take room cs)) is_max some_call full
        (length-numbered frame 0 0 (take room cs) ∙ length-take room cs)
        (λ below.
          stats_equal (calls r frame cs) frame now cs
            (s
              ∙ (ap (λ (k : ℕ). k + draw_count (take room cs)) s0
                  ∙ (zero_plus _ ∙ ap draw_count (take-all room cs (omega arith)))))
            (n ∙ (ap (λ (k : ℕ). k + copy_count cs) c0 ∙ zero_plus _))) in
    let added = λ (l : List Record). l ++ frame_records room frame now cs in
    let opened = λ (f t : Bool). f || (not t && opens) in
    let q = calls r frame cs in
    let file =
      ap (λ (f : Bool). if opened f q.open_attempted then added q.written else q.written) o
      ∙ (ap (λ (t : Bool). if opened r.file_open t then added q.written else q.written) a
          ∙ ap (λ (l : List Record). if opened r.file_open r.open_attempted then added l else l)
              w) in
    let (kept, buffer, sequence, copied) = end_frame-rest (calls r frame cs) frame now opens in
    (last ∙ file, kept ∙ d, buffer, sequence, copied)
