-- ===== src/Memo/Outdated.antt =====
-- NativePollTextureOutdated of native_texture_outdated_poll.h: the consumer of one atomic flag. A
-- producer that runs after the load or after the exchange is what the observer does at that stage.
use bolts_rebuilt.Prelude.{ℕ, ◌+◌, ◌≡◌, Bool, false, not, ◌&&◌, ◌||◌, if◌then◌else◌, arith}

pub record Stats : Type 0 where
  pub false_load_skips : ℕ
  pub exchanges : ℕ
  pub consumed_notifications : ℕ

-- Whether a producer stores true between the load and the exchange, and after the exchange.
pub record Producers : Type 0 where
  pub after_load : Bool
  pub after_exchange : Bool

-- The answer, the flag afterwards and the counts.
pub poll : Bool → Bool → Producers → Stats → Bool × Bool × Stats
poll flag load_first producers stats =
    if not load_first
    then (flag, false, stats)
    else let flag' = flag || producers.after_load in
      if not flag
      then (false, flag', record stats { false_load_skips = stats.false_load_skips + 1 })
      else let consumed = flag' in
        (
          consumed,
          producers.after_exchange,
          record stats {
            exchanges = stats.exchanges + 1;
            consumed_notifications =
                if consumed then stats.consumed_notifications + 1 else stats.consumed_notifications;
          },
        )

-- No notification is lost: a flag set before the poll is answered true, and a store made during a
-- poll that loads first is answered by this poll or still set after it; the poll answers true only
-- when the flag was set before it.
pub poll_lem :
    (flag load_first : Bool) (producers : Producers) (stats : Stats)
    → ((poll flag load_first producers stats).0 ≡ flag)
      × ((load_first
            && producers.after_load
            && not (
                (poll flag load_first producers stats).0
                || (poll flag load_first producers stats).1))
          ≡ false)
      × ((load_first
            && flag
            && producers.after_exchange
            && not (poll flag load_first producers stats).1)
          ≡ false)
unfolding poll
poll_lem flag load_first producers stats = ground arith
