-- ===== src/Batch/Ticks.antt =====
-- A tick of the writing loop ends a stretch of it: what follows is as after a start.
use rust_dns.Base.{ℕ, ◌≡◌, refl, ap, true, false, List, [], ◌∷◌, ◌++◌}
use rust_dns.Batch.{Event, record_in, closed, tick, Writer, flush, push, run}
use rust_dns.Batch.Order.{start, received, is_closed}

module _ {ℓ} {A : Type ℓ} where
  pub is_closed-ended : (es : List (Event A)) → is_closed (es ++ (closed ∷ [])) ≡ true
  is_closed-ended [] = refl
  is_closed-ended (record_in a ∷ es) = is_closed-ended es
  is_closed-ended (closed ∷ es) = refl
  is_closed-ended (tick ∷ es) = is_closed-ended es

  pub received-ended : (es : List (Event A)) → received (es ++ (closed ∷ [])) ≡ received es
  received-ended [] = refl
  received-ended (record_in a ∷ es) = ap (λ l. a ∷ l) (received-ended es)
  received-ended (closed ∷ es) = refl
  received-ended (tick ∷ es) = received-ended es

module _ {ℓ} {A W : Type ℓ} (write : List A → W → W) where
  flush_parts :
      (w : W) (b : List A)
      → flush write (record { world = w; buf = b })
        ≡ start (flush write (record { world = w; buf = b })).world
  unfolding flush
  flush_parts w [] = refl
  flush_parts w (a ∷ b) = refl

  flush-start : (s : Writer A W) → flush write s ≡ start (flush write s).world
  flush-start s = flush_parts s.world s.buf

  -- The loop over a tick is the loop to the end of a channel closed there, then the rest from a start.
  pub from_tick :
      (enough : ℕ) (es rest : List (Event A)) (s : Writer A W)
      → is_closed es ≡ false
      → run write enough s (es ++ (tick ∷ rest))
        ≡ run write enough (start (run write enough s (es ++ (closed ∷ []))).world) rest
  unfolding run
  from_tick enough [] rest s more = ap (λ x. run write enough x rest) (flush-start s)
  from_tick enough (record_in a ∷ es) rest s more =
      from_tick enough es rest (push write enough a s) more
  from_tick enough (closed ∷ es) rest s more = cc
  from_tick enough (tick ∷ es) rest s more = from_tick enough es rest (flush write s) more
