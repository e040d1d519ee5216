-- ===== src/Batch/Order.antt =====
-- Nothing is lost, repeated or put out of order between the channel and the batches.
use mathlib.Core.Path.{ap₂}
use rust_dns.Base.{
  ℕ, ◌≤◌, ◌<◌, ◌≡◌, sym, ap, ◌∙◌, inl, inr, Bool, true, false, List, [], ◌∷◌, ◌++◌, append-nil,
  append_assoc, length, length-append, leb, All, All-append, arith, ◌+◌, Bool-cases, is_empty, refl,
}
use rust_dns.Batch.{Event, record_in, closed, tick, Writer, flush, push, run}

module _ {ℓ} {A : Type ℓ} where
  -- The records that arrive before the channel is closed.
  abbrev pub received : List (Event A) → List A
  received [] = []
  received (record_in a ∷ es) = a ∷ received es
  received (closed ∷ es) = []
  received (tick ∷ es) = received es

  abbrev pub is_closed : List (Event A) → Bool
  is_closed [] = false
  is_closed (record_in a ∷ es) = is_closed es
  is_closed (closed ∷ es) = true
  is_closed (tick ∷ es) = is_closed es

  abbrev pub concat : List (List A) → List A
  concat [] = []
  concat (b ∷ bs) = b ++ concat bs

  concat-append : (bs : List (List A)) (b : List A) → concat (bs ++ (b ∷ [])) ≡ concat bs ++ b
  concat-append [] b = append-nil b
  concat-append (c ∷ bs) b =
      ap (λ t. c ++ t) (concat-append bs b) ∙ sym (append_assoc c (concat bs) b)

  -- The world that remembers each batch.
  abbrev pub remember : List A → List (List A) → List (List A)
  remember b bs = bs ++ (b ∷ [])

  abbrev pub IsBatch : ℕ → List A → Type 0
  IsBatch enough b = (1 ≤ length b) × (length b ≤ enough)

  pub record Kept (enough : ℕ) (taken : List A) (s : Writer A (List (List A))) : Type ℓ where
    pub order : concat s.world ++ s.buf ≡ taken
    pub batches : All (IsBatch enough) s.world
    pub room : length s.buf < enough

  module _ (enough : ℕ) (pos : 1 ≤ enough) where
    written-Kept :
        (taken : List A) (w : List (List A)) (b : List A)
        → concat w ++ b ≡ taken
        → All (IsBatch enough) w
        → IsBatch enough b
        → Kept enough taken (record { world = remember b w; buf = [] })
    written-Kept taken w b order batches fits = record {
      order = append-nil (concat (remember b w)) ∙ concat-append w b ∙ order;
      batches = All-append (IsBatch enough) w (b ∷ []) batches (fits, tt);
      room = pos;
    }

    flush-Kept :
        (taken : List A) (w : List (List A)) (b : List A)
        → concat w ++ b ≡ taken
        → All (IsBatch enough) w
        → length b ≤ enough
        → Kept enough taken (flush remember (record { world = w; buf = b }))
    unfolding flush
    flush-Kept taken w [] order batches fits = record {
      order = order;
      batches = batches;
      room = pos;
    }
    flush-Kept taken w (a ∷ b) order batches fits =
        written-Kept taken w (a ∷ b) order batches (omega arith, fits)

    push-Kept :
        (taken : List A) (a : A) (s : Writer A (List (List A)))
        → Kept enough taken s
        → Kept enough (taken ++ (a ∷ [])) (push remember enough a s)
    unfolding push
    push-Kept taken a s k =
        let b : List A = s.buf ++ (a ∷ []) in
        let order : concat s.world ++ b ≡ taken ++ (a ∷ []) =
          sym (append_assoc (concat s.world) s.buf (a ∷ [])) ∙ ap (λ t. t ++ (a ∷ [])) k.order in
        let grown : length b ≡ length s.buf + 1 = length-append s.buf (a ∷ []) in
        elim (Bool-cases (leb enough (length b))) [
          | inl full ↦ rw full (
              flush-Kept (taken ++ (a ∷ [])) s.world b order k.batches
                (omega (arith, grown, k.room)))
          | inr some_room ↦
              rw some_room
                (record { order = order; batches = k.batches; room = ground (arith, some_room) })
        ]

    run-Kept :
        (es : List (Event A)) (taken : List A) (s : Writer A (List (List A)))
        → Kept enough taken s
        → Kept enough (taken ++ received es) (run remember enough s es)
    unfolding run
    run-Kept [] taken s k = rw append-nil k
    run-Kept (record_in a ∷ es) taken s k =
        rw (append_assoc taken (a ∷ []) (received es)) at
          (run-Kept es (taken ++ (a ∷ [])) (push remember enough a s) (push-Kept taken a s k))
    run-Kept (closed ∷ es) taken s k =
        rw append-nil (flush-Kept taken s.world s.buf k.order k.batches (omega (arith, k.room)))
    run-Kept (tick ∷ es) taken s k =
        run-Kept es taken (flush remember s)
          (flush-Kept taken s.world s.buf k.order k.batches (omega (arith, k.room)))

    flush_empties : (s : Writer A (List (List A))) → (flush remember s).buf ≡ []
    unfolding flush
    flush_empties s = ground arith

    run_empties :
        (es : List (Event A)) (s : Writer A (List (List A)))
        → is_closed es ≡ true
        → (run remember enough s es).buf ≡ []
    unfolding run
    run_empties [] s h = cc
    run_empties (record_in a ∷ es) s h = run_empties es (push remember enough a s) h
    run_empties (closed ∷ es) s h = flush_empties s
    run_empties (tick ∷ es) s h = run_empties es (flush remember s) h

abbrev pub start {ℓ} : {A W : Type ℓ} → W → Writer A W
start w = record { world = w; buf = [] }

-- With a limit of at least one and from an empty buffer: the batches one after the other, then the
-- buffer, are the records that arrived, in their order. Every batch has a record and at most the
-- limit, the buffer has fewer, and it is empty once the channel is closed.
pub run_in_order {ℓ} :
    {A : Type ℓ} (enough : ℕ) (es : List (Event A))
    → 1 ≤ enough
    → Kept enough (received es) (run remember enough (start []) es)
      × (is_closed es ≡ true → (run remember enough (start []) es).buf ≡ [])
run_in_order enough es pos = (
  run-Kept enough pos es [] (start []) (record { order = refl; batches = tt; room = pos }),
  run_empties enough pos es (start []),
)

module _ {ℓ} {A W : Type ℓ} (write : List A → W → W) where
  -- The batches, written in turn.
  abbrev pub write_all : List (List A) → W → W
  write_all [] w = w
  write_all (b ∷ bs) w = write_all bs (write b w)

  write_all-append :
      (bs : List (List A)) (b : List A) (w : W)
      → write_all (bs ++ (b ∷ [])) w ≡ write b (write_all bs w)
  write_all-append [] b w = refl
  write_all-append (c ∷ bs) b w = write_all-append bs b (write c w)

  -- Two runs over the same events, of which one remembers its batches.
  record Alike (w : W) (s : Writer A W) (t : Writer A (List (List A))) : Type ℓ where
    same_buf : s.buf ≡ t.buf
    same_world : s.world ≡ write_all t.world w

  module _ (enough : ℕ) (w : W) where
    flush-Alike :
        (s : Writer A W) (t : Writer A (List (List A)))
        → Alike w s t
        → Alike w (flush write s) (flush remember t)
    unfolding flush
    flush-Alike s t a = elim (Bool-cases (is_empty t.buf)) [
      | inl e ↦ let e' : is_empty s.buf ≡ true = ap is_empty a.same_buf ∙ e in rw (e', e) a
      | inr e ↦
          let e' : is_empty s.buf ≡ false = ap is_empty a.same_buf ∙ e in
          rw (e', e)
            (record {
              same_buf = refl;
              same_world =
                  ap₂ write a.same_buf a.same_world ∙ sym (write_all-append t.world t.buf w);
            })
    ]

    push-Alike :
        (x : A) (s : Writer A W) (t : Writer A (List (List A)))
        → Alike w s t
        → Alike w (push write enough x s) (push remember enough x t)
    unfolding push
    push-Alike x s t a =
        let s' : Writer A W = record { world = s.world; buf = s.buf ++ (x ∷ []) } in
        let t' : Writer A (List (List A)) = record { world = t.world; buf = t.buf ++ (x ∷ []) } in
        let a' : Alike w s' t' = record {
          same_buf = ap (λ b. b ++ (x ∷ [])) a.same_buf;
          same_world = a.same_world;
        } in
        let grown = ap (λ b. leb enough (length b)) a'.same_buf in
        elim (Bool-cases (leb enough (length t'.buf))) [
          | inl full ↦
              let full' : leb enough (length s'.buf) ≡ true = grown ∙ full in
              rw (full', full) (flush-Alike s' t' a')
          | inr some_room ↦
              let room' : leb enough (length s'.buf) ≡ false = grown ∙ some_room in
              rw (room', some_room) a'
        ]

    run-Alike :
        (es : List (Event A)) (s : Writer A W) (t : Writer A (List (List A)))
        → Alike w s t
        → Alike w (run write enough s es) (run remember enough t es)
    unfolding run
    run-Alike [] s t a = a
    run-Alike (record_in x ∷ es) s t a =
        run-Alike es (push write enough x s) (push remember enough x t) (push-Alike x s t a)
    run-Alike (closed ∷ es) s t a = flush-Alike s t a
    run-Alike (tick ∷ es) s t a =
        run-Alike es (flush write s) (flush remember t) (flush-Alike s t a)

  -- Whatever writing does, the loop writes just the batches that it would remember, in their order.
  pub run-write_all :
      (enough : ℕ) (w : W) (es : List (Event A))
      → (run write enough (start w) es).world
        ≡ write_all (run remember enough (start []) es).world w
  run-write_all enough w es =
      (run-Alike enough w es (start w) (start [])
        (record { same_buf = refl; same_world = refl })).same_world
