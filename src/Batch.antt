-- ===== src/Batch.antt =====
-- The loop that `run_writer` of src/cache.rs and `run_writer` of src/qlog.rs share: records are
-- buffered, and written as a batch when there are enough of them, at each tick of an interval, and
-- when all senders are gone. `write` is what the writing of a batch makes of the world.
pub mod Order
pub mod Preserves
pub mod Ticks
mod Tests
use rust_dns.Base.{ℕ, Bool, true, false, List, [], ◌∷◌, ◌++◌, length, is_empty, leb, if◌then◌else◌}

-- What `tokio::select!` reports: a record, the end of the channel, or a tick.
pub data Event {ℓ} (A : Type ℓ) : Type ℓ where
  record_in : A → Event A
  closed : Event A
  tick : Event A

pub record Writer {ℓ} (A W : Type ℓ) : Type ℓ where
  pub world : W
  pub buf : List A

module _ {ℓ} {A W : Type ℓ} (write : List A → W → W) where
  -- `flush`: the buffer is taken, whether or not the writing succeeds.
  unfoldable pub flush : Writer A W → Writer A W
  flush s = if is_empty s.buf then s else record { world = write s.buf s.world; buf = [] }

module _ {ℓ} {A W : Type ℓ} (write : List A → W → W) (enough : ℕ) where
  unfoldable pub push : A → Writer A W → Writer A W
  unfolding flush
  push a s =
      let s' : Writer A W = record { world = s.world; buf = s.buf ++ (a ∷ []) } in
      if leb enough (length s'.buf) then flush write s' else s'

  -- The loop, until the channel is closed or no more events are at hand.
  unfoldable pub run : Writer A W → List (Event A) → Writer A W
  unfolding push flush
  run s [] = s
  run s (record_in a ∷ es) = run (push a s) es
  run s (closed ∷ es) = flush write s
  run s (tick ∷ es) = run (flush write s) es
