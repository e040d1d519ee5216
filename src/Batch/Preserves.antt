-- ===== src/Batch/Preserves.antt =====
-- What stays true of the world that the writing loop changes.
use rust_dns.Base.{is_empty, ℕ, inl, inr, List, [], ◌∷◌, ◌++◌, length, Bool-cases, leb}
use rust_dns.Batch.{record_in, tick, closed, flush, push, run, Writer, Event}

module _ {ℓ κ} {A W : Type ℓ} (write : List A → W → W) (enough : ℕ) (P : W → Type κ)
    (keeps : (b : List A) (w : W) → P w → P (write b w)) where
  flush-preserves : (s : Writer A W) → P s.world → P (flush write s).world
  unfolding flush
  flush-preserves s p = elim (Bool-cases (is_empty s.buf)) [
    | inl nothing ↦ rw (nothing, flush) p
    | inr some_rows ↦ rw (some_rows, flush) (keeps s.buf s.world p)
  ]

  push-preserves : (a : A) (s : Writer A W) → P s.world → P (push write enough a s).world
  unfolding push
  push-preserves a s p = elim (Bool-cases (leb enough (length (s.buf ++ (a ∷ []))))) [
    | inl full ↦
        rw (full, push) (flush-preserves (record { world = s.world; buf = s.buf ++ (a ∷ []) }) p)
    | inr room ↦ rw (room, push) p
  ]

  -- What the writing of every batch keeps, the loop keeps.
  pub run-preserves :
      (es : List (Event A)) (s : Writer A W) → P s.world → P (run write enough s es).world
  unfolding run
  run-preserves [] s p = p
  run-preserves (record_in a ∷ es) s p =
      run-preserves es (push write enough a s) (push-preserves a s p)
  run-preserves (closed ∷ es) s p = flush-preserves s p
  run-preserves (tick ∷ es) s p = run-preserves es (flush write s) (flush-preserves s p)
