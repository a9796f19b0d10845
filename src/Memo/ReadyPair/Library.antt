-- ===== src/Memo/ReadyPair/Library.antt =====
-- The memo under any sequence of the library's calls, against the pair that they leave published.
use bolts_rebuilt.Prelude.{ℕ, ◌≡◌, refl, ◌&&◌, ◌==◌, if◌then◌else◌, List, [], ◌∷◌, arith}
use bolts_rebuilt.Memo.ReadyPair.{Memo, Entry, find, publish, reset, empty_entry, move}

pub data Call : Type 0 where
  finds : ℕ → ℕ → Call
  publishes : ℕ → ℕ → ℕ → Call
  resets : Call
  moves_in : Memo → Call
  moves_out : Call

pub step : Memo → Call → Memo
step memo (Call.finds vertex pixel) = (find memo vertex pixel).1
step memo (Call.publishes vertex pixel pair) = publish memo vertex pixel pair
step memo Call.resets = reset memo
step memo (Call.moves_in other) = (move other).0
step memo Call.moves_out = (move memo).1

pub run : Memo → List Call → Memo
run memo [] = memo
run memo (call ∷ calls) = run (step memo call) calls

-- The pair that the calls leave published, from the one before them. A memo moved in brings its own.
pub published : Entry → List Call → Entry
published entry [] = entry
published entry (Call.finds vertex pixel ∷ calls) = published entry calls
published entry (Call.publishes vertex pixel pair ∷ calls) =
    published
      (if pair == 0
        then entry
        else record { vertex_hash = vertex; pixel_hash = pixel; pair = pair })
      calls
published entry (Call.resets ∷ calls) = published empty_entry calls
published entry (Call.moves_in other ∷ calls) = published other.entry calls
published entry (Call.moves_out ∷ calls) = published empty_entry calls

pub answers : Entry → ℕ → ℕ → ℕ
answers entry vertex pixel =
    if entry.vertex_hash == vertex && entry.pixel_hash == pixel then entry.pair else 0

find-entry : (memo : Memo) (vertex pixel : ℕ) → (find memo vertex pixel).1.entry ≡ memo.entry
unfolding find
find-entry memo vertex pixel = ground arith

publish-entry :
    (memo : Memo) (vertex pixel pair : ℕ)
    → (publish memo vertex pixel pair).entry ≡ (
        if pair == 0
        then memo.entry
        else record { vertex_hash = vertex; pixel_hash = pixel; pair = pair })
unfolding publish
publish-entry memo vertex pixel pair = ground arith

run-entry : (memo : Memo) (calls : List Call) → (run memo calls).entry ≡ published memo.entry calls
unfolding run published step reset move
run-entry memo [] = refl
run-entry memo (Call.finds vertex pixel ∷ calls) =
    rw (run-entry (find memo vertex pixel).1 calls, find-entry memo vertex pixel) refl
run-entry memo (Call.publishes vertex pixel pair ∷ calls) =
    rw (run-entry (publish memo vertex pixel pair) calls, publish-entry memo vertex pixel pair) refl
run-entry memo (Call.resets ∷ calls) = run-entry (reset memo) calls
run-entry memo (Call.moves_in other ∷ calls) = run-entry other calls
run-entry memo (Call.moves_out ∷ calls) = run-entry (move memo).1 calls

-- After any sequence of calls, a lookup answers the pair that the memo holds, if its two hashes are the
-- ones asked for, and null otherwise: the last pair published that is not null, or, after another memo
-- was moved in, the pair of that memo until the next publication; none after a reset or after the memo
-- was moved out of; and the one held at first if no such call was made.
pub find-run :
    (memo : Memo) (calls : List Call) (vertex pixel : ℕ)
    → (find (run memo calls) vertex pixel).0 ≡ answers (published memo.entry calls) vertex pixel
unfolding find answers
find-run memo calls vertex pixel = rw (run-entry memo calls) (ground arith)
