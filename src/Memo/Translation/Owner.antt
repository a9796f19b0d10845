-- ===== src/Memo/Translation/Owner.antt =====
-- The memo beside the shader's own map of translations, under the owner's operations.
use bolts_rebuilt.Prelude.{ℕ, ◌≡◌, ◌≢◌, update, arith}
use bolts_rebuilt.Memo.Translation.{Memo, Stats, find, publish, reset, invalidate, new_memo}

-- The map gives 0 for a modification without a translation.
pub record Owner : Type 0 where
  pub memo : Memo
  pub translations : ℕ → ℕ
  pub stats : Stats

-- A lookup asks the memo first; on a miss it reads the map and publishes what it holds. An entry of
-- the map is written while it is absent, and erased after the memo was told.
pub data Step : Owner → Owner → Type 0 where
  hit :
      (o : Owner) (modification : ℕ)
      → (find o.memo modification o.stats).0 ≢ 0
      → Step o (record o { stats = (find o.memo modification o.stats).1 })
  miss :
      (o : Owner) (modification : ℕ)
      → (find o.memo modification o.stats).0 ≡ 0
      → Step o (record o {
        memo =
            (publish o.memo modification
              (o.translations modification)
              (find o.memo modification o.stats).1).0;
        stats =
            (publish o.memo modification
              (o.translations modification)
              (find o.memo modification o.stats).1).1;
      })
  create :
      (o : Owner) (modification translation : ℕ)
      → o.translations modification ≡ 0
      → Step o (record o { translations = update o.translations modification translation })
  erase :
      (o : Owner) (modification : ℕ)
      → Step o (record o {
        memo = (invalidate o.memo modification).1;
        translations = update o.translations modification 0;
      })
  clear : (o : Owner) → Step o (record o { memo = reset o.memo; translations = λ _. 0 })

pub data Reach : Owner → Type 0 where
  start : (stats : Stats) → Reach (record { memo = new_memo; translations = λ _. 0; stats = stats })
  step : (o o' : Owner) → Reach o → Step o o' → Reach o'

-- What the memo remembers is what the map holds.
Agrees : Owner → Type 0
Agrees o = o.memo.translation ≢ 0 → o.translations o.memo.modification ≡ o.memo.translation

Step-Agrees : (o o' : Owner) → Step o o' → Agrees o → Agrees o'
unfolding Agrees find publish reset invalidate
Step-Agrees o o' (hit _ modification h) agrees = agrees
Step-Agrees o o' (miss _ modification h) agrees = ground arith
Step-Agrees o o' (create _ modification translation h) agrees = ground arith
Step-Agrees o o' (erase _ modification) agrees = ground arith
Step-Agrees o o' (clear _) agrees = ground arith

Reach-Agrees : (o : Owner) → Reach o → Agrees o
unfolding Agrees new_memo
Reach-Agrees o (start stats) = λ h. ground arith
Reach-Agrees o (step p _ reach s) = Step-Agrees p o s (Reach-Agrees p reach)

-- In every state the owner reaches, a modification found in the memo is found with the translation
-- that the owner's map holds for it.
pub find-Reach :
    (o : Owner) (modification : ℕ)
    → Reach o
    → (find o.memo modification o.stats).0 ≢ 0
    → (find o.memo modification o.stats).0 ≡ o.translations modification
unfolding find Agrees
find-Reach o modification reach found = let agrees = Reach-Agrees o reach in ground arith
