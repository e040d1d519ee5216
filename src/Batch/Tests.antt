-- ===== src/Batch/Tests.antt =====
-- The loop at a concrete run.
use rust_dns.Base.{ℕ, ◌≡◌, refl, true, List, [], ◌∷◌, arith}
use rust_dns.Batch.{record_in, Event, run, tick, closed}
use rust_dns.Batch.Order.{Kept, remember, received, start, is_closed, run_in_order}

abbrev events : List (Event ℕ)
events = record_in 1 ∷ record_in 2 ∷ record_in 3 ∷ tick ∷ record_in 4 ∷ closed ∷ []

batches : (run remember 2 (start []) events).world ≡ (1 ∷ 2 ∷ []) ∷ (3 ∷ []) ∷ (4 ∷ []) ∷ []
unfolding run
batches = refl

run_in_order_example :
    Kept 2 (received events) (run remember 2 (start []) events)
    × (is_closed events ≡ true → (run remember 2 (start []) events).buf ≡ [])
run_in_order_example = run_in_order 2 events (omega arith)
