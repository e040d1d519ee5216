-- ===== src/Cache/Writer.antt =====
-- `run_writer` and `flush` of src/cache.rs: the write-behind task of the cache.
use rust_dns.Base.{
  false, All, inl, inr, Option-cases, ℕ, ◌≡◌, refl, sym, ◌∙◌, ap, true, Option, none, some, List,
  [], ◌∷◌, ◌++◌, append-nil, arith, max, ◌≢◌,
}
use rust_dns.Bytes.{Bytes}
use rust_dns.Batch.{closed, tick, Event, Writer, run}
use rust_dns.Batch.Order.{
  received, is_closed, concat, remember, start, run_in_order, write_all, run-write_all,
}
use rust_dns.Batch.Ticks.{from_tick, is_closed-ended, received-ended}
use rust_dns.Cache.{CacheKey, CachedResponse, enc_key, enc_val}
use rust_dns.Cache.Redb.{Redb}
use rust_dns.Cache.Store.{Item, write_batch}
use rust_dns.Cache.Store.Write.{
  last_write, last_write-last, write_batch-get, Untouched, write_batch-keeps,
}

abbrev pub batch_max : ℕ
batch_max = 256

-- The interval of the ticks, in milliseconds.
unfoldable pub tick_ms : ℕ → ℕ
tick_ms flush_ms = max flush_ms 50

module _ (redb : Redb) where
  -- `flush` only logs that a batch could not be written: the batch is gone, the database unchanged.
  unfoldable pub persist : List Item → redb.Db → redb.Db
  persist batch d = elim (write_batch redb batch d) [ none ↦ d | some d' ↦ d' ]

  unfoldable pub run_writer : redb.Db → List (Event Item) → Writer Item redb.Db
  unfolding persist run
  run_writer d es = run persist batch_max (start d) es

  persist-get :
      (batch : List Item) (d : redb.Db) (j : Bytes)
      → (d' : redb.Db) × (write_batch redb batch d ≡ some d')
      → redb.get (persist batch d) j ≡ last_write j batch (redb.get d j)
  unfolding persist
  persist-get batch d j (d', e) = rw (e, persist) (write_batch-get redb batch d d' j e).0

last_write-append :
    (j : Bytes) (xs ys : List Item) (old : Option Bytes)
    → last_write j (xs ++ ys) old ≡ last_write j ys (last_write j xs old)
last_write-append j [] ys old = refl
last_write-append j ((k, v) ∷ xs) ys old = last_write-append j xs ys _

module _ (redb : Redb)
    (commits : (batch : List Item) (d : redb.Db)
      → (d' : redb.Db) × (write_batch redb batch d ≡ some d')) where
  write_all-get :
      (bs : List (List Item)) (d : redb.Db) (j : Bytes)
      → redb.get (write_all (persist redb) bs d) j ≡ last_write j (concat bs) (redb.get d j)
  write_all-get [] d j = refl
  write_all-get (b ∷ bs) d j =
      write_all-get bs (persist redb b d) j
      ∙ ap (last_write j (concat bs)) (persist-get redb b d j (commits b d))
      ∙ sym (last_write-append j b (concat bs) (redb.get d j))

-- If every batch commits, then after the channel is closed every key that was sent holds the last
-- value that was sent for it.
pub run_writer-stores :
    (redb : Redb) (d : redb.Db) (es : List (Event Item)) (before later : List Item) (k : CacheKey)
    (v : CachedResponse)
    → ((batch : List Item) (x : redb.Db) → (x' : redb.Db) × (write_batch redb batch x ≡ some x'))
    → is_closed es ≡ true
    → received es ≡ before ++ ((k, v) ∷ later)
    → Untouched (enc_key k) later
    → redb.get (run_writer redb d es).world (enc_key k) ≡ some (enc_val v)
unfolding run_writer
run_writer-stores redb d es before later k v commits shut sent u =
    let trace = run remember batch_max (start []) es in
    let (kept, empties) = run_in_order batch_max es (omega arith) in
    let all_sent : concat trace.world ≡ before ++ ((k, v) ∷ later) =
      sym (append-nil (concat trace.world))
      ∙ ap (λ b. concat trace.world ++ b) (sym (empties shut))
      ∙ kept.order
      ∙ sent in
    ap (λ x. redb.get x (enc_key k)) (run-write_all (persist redb) batch_max d es)
    ∙ write_all-get redb commits trace.world d (enc_key k)
    ∙ ap (λ l. last_write (enc_key k) l (redb.get d (enc_key k))) all_sent
    ∙ last_write-last k v before later (redb.get d (enc_key k)) u

All-left : {A : Type 0} (P : A → Type 0) (xs ys : List A) → All P (xs ++ ys) → All P xs
All-left P [] ys all = tt
All-left P (x ∷ xs) ys (p, all) = (p, All-left P xs ys all)

All-right : {A : Type 0} (P : A → Type 0) (xs ys : List A) → All P (xs ++ ys) → All P ys
All-right P [] ys all = all
All-right P (x ∷ xs) ys (p, all) = All-right P xs ys all

persist-keeps :
    (redb : Redb) (batch : List Item) (d : redb.Db) (j : Bytes)
    → Untouched j batch
    → redb.get (persist redb batch d) j ≡ redb.get d j
unfolding persist
persist-keeps redb batch d j u = elim (Option-cases (write_batch redb batch d)) [
  | inl failed ↦ rw (failed, persist) refl
  | inr (d', written) ↦ rw (written, persist) (write_batch-keeps redb batch d d' j u written)
]

write_all-keeps :
    (redb : Redb) (bs : List (List Item)) (d : redb.Db) (j : Bytes)
    → Untouched j (concat bs)
    → redb.get (write_all (persist redb) bs d) j ≡ redb.get d j
write_all-keeps redb [] d j u = refl
write_all-keeps redb (b ∷ bs) d j u =
    write_all-keeps redb bs (persist redb b d) j (All-right (λ e. enc_key e.0 ≢ j) b (concat bs) u)
    ∙ persist-keeps redb b d j (All-left (λ e. enc_key e.0 ≢ j) b (concat bs) u)

-- A key that is not sent keeps its row, whichever batches commit.
run_writer-keeps :
    (redb : Redb) (d : redb.Db) (es : List (Event Item)) (j : Bytes)
    → Untouched j (received es)
    → redb.get (run_writer redb d es).world j ≡ redb.get d j
unfolding run_writer
run_writer-keeps redb d es j u =
    let trace = run remember batch_max (start []) es in
    let (kept, _) = run_in_order batch_max es (omega arith) in
    let all : Untouched j (concat trace.world ++ trace.buf) = rw (sym kept.order) at u in
    ap (λ x. redb.get x j) (run-write_all (persist redb) batch_max d es)
    ∙ write_all-keeps redb trace.world d j
        (All-left (λ e. enc_key e.0 ≢ j) (concat trace.world) trace.buf all)

-- If every batch commits: what was the last to be sent for its key before a tick is there after it, at
-- any time at which nothing else was sent for the key.
pub run_writer-stores_at_tick :
    (redb : Redb) (d : redb.Db) (es rest : List (Event Item)) (before later : List Item)
    (k : CacheKey) (v : CachedResponse)
    → ((batch : List Item) (x : redb.Db) → (x' : redb.Db) × (write_batch redb batch x ≡ some x'))
    → is_closed es ≡ false
    → received es ≡ before ++ ((k, v) ∷ later)
    → Untouched (enc_key k) later
    → Untouched (enc_key k) (received rest)
    → redb.get (run_writer redb d (es ++ (tick ∷ rest))).world (enc_key k) ≡ some (enc_val v)
unfolding run_writer
run_writer-stores_at_tick redb d es rest before later k v commits more sent u untouched =
    let ended = es ++ (closed ∷ []) in
    ap (λ s. redb.get s.world (enc_key k))
      (from_tick (persist redb) batch_max es rest (start d) more)
    ∙ run_writer-keeps redb (run_writer redb d ended).world rest (enc_key k) untouched
    ∙ run_writer-stores redb d ended before later k v commits (is_closed-ended es)
        (received-ended es ∙ sent) u
