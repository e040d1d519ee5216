-- ===== src/Boot/Purge.antt =====
-- src/main.rs: the task that purges the store, on a timer.
use rust_dns.Base.{
  true, max, ℕ, ◌≡◌, ◌≤◌, inl, inr, ◌∙◌, false, none, some, List, [], ◌∷◌, arith, Option-cases, All,
}
use rust_dns.Cache.Redb.{Redb}
use rust_dns.Cache.Store.{purge_expired, is_expired}
use rust_dns.Bytes.{Bytes}
use rust_dns.Cache.Store.Purge.{purge_expired-get}

-- The interval of its ticks, in seconds.
unfoldable pub purge_secs : ℕ → ℕ
purge_secs purge_interval_secs = max purge_interval_secs 30

-- A tick of the purging task: its time, what other tasks have made of the database since the last one,
-- and what they make of it between the two transactions of the purge.
pub record Tick (Db : Type 0) : Type 0 where
  pub now : ℕ
  pub before : Db → Db
  pub between : Db → Db

module _ (redb : Redb) where
  -- The purge at a tick. Of one that fails only the changes of the other tasks stay.
  unfoldable pub purge_once : Tick redb.Db → redb.Db → redb.Db
  purge_once t d = elim (purge_expired redb t.now t.between (t.before d)) [
    | none ↦ t.between (t.before d)
    | some (d', n) ↦ d'
  ]

  unfoldable pub purge_loop : List (Tick redb.Db) → redb.Db → redb.Db
  unfolding purge_once
  purge_loop [] d = d
  purge_loop (t ∷ ticks) d = purge_loop ticks (purge_once t d)

  -- The first tick comes at once, and is skipped: nothing is purged at it.
  unfoldable pub purge_task : List (Tick redb.Db) → redb.Db → redb.Db
  unfolding purge_loop
  purge_task [] d = d
  purge_task (first ∷ ticks) d = purge_loop ticks (first.between (first.before d))

  earlier_live :
      (now later : ℕ) (v : Bytes)
      → now ≤ later
      → is_expired later v ≡ false
      → is_expired now v ≡ false
  unfolding is_expired
  earlier_live now later v le live = ground (arith, le, live)

  module _ (later : ℕ) (P : Bytes → Type 0) (k : Bytes) where
    -- The row of the key is there and is as `P` says.
    abbrev pub Holds : redb.Db → Type 0
    Holds d = (v : Bytes) × (redb.get d k ≡ some v) × P v

    -- The tick is not after `later`, and the other tasks keep the row as `P` says.
    pub record Keeps (t : Tick redb.Db) : Type 0 where
      pub in_time : t.now ≤ later
      pub before : (d : redb.Db) → Holds d → Holds (t.before d)
      pub between : (d : redb.Db) → Holds d → Holds (t.between d)

    purge_once-Holds :
        (t : Tick redb.Db) (d : redb.Db)
        → ((v : Bytes) → P v → is_expired later v ≡ false)
        → Keeps t
        → Holds d
        → Holds (purge_once t d)
    unfolding purge_once
    purge_once-Holds t d live keeps holds =
        let (v, held, p) = keeps.before d holds in
        let (w, after, q) = keeps.between (t.before d) (v, held, p) in
        elim (Option-cases (purge_expired redb t.now t.between (t.before d))) [
          | inl failed ↦ rw (failed, purge_once) (w, after, q)
          | inr ((d', n), purged) ↦
              let fresh = earlier_live t.now later v keeps.in_time (live v p) in
              let (_, kept) =
                purge_expired-get redb t.now t.between (t.before d) d' n k v purged held in
              rw (purged, purge_once) (w, kept fresh ∙ after, q)
        ]

    purge_loop-Holds :
        (ticks : List (Tick redb.Db)) (d : redb.Db)
        → ((v : Bytes) → P v → is_expired later v ≡ false)
        → All Keeps ticks
        → Holds d
        → Holds (purge_loop ticks d)
    unfolding purge_loop
    purge_loop-Holds [] d live all holds = holds
    purge_loop-Holds (t ∷ ticks) d live (keeps, all) holds =
        purge_loop-Holds ticks (purge_once t d) live all (purge_once-Holds t d live keeps holds)

    -- Let `P` be met only by values that have not expired at a time `later` than all ticks. If the row
    -- of a key meets `P`, and whatever the other tasks write between and during the purges, the row
    -- still meets it after them, then however often the task purges, and whichever purges fail, the row
    -- is there at the end and meets `P`.
    pub purge_task-Holds :
        (ticks : List (Tick redb.Db)) (d : redb.Db)
        → ((v : Bytes) → P v → is_expired later v ≡ false)
        → All Keeps ticks
        → Holds d
        → Holds (purge_task ticks d)
    unfolding purge_task
    purge_task-Holds [] d live all holds = holds
    purge_task-Holds (first ∷ ticks) d live (keeps, all) holds =
        purge_loop-Holds ticks (first.between (first.before d)) live all
          (keeps.between (first.before d) (keeps.before d holds))

  -- If a row is expired when a purge reads it, other tasks then renew it before the purge deletes, with
  -- a value that has not expired, and the purge succeeds, then the renewed row is gone.
  pub purge_once-loses :
      (t : Tick redb.Db) (d d' : redb.Db) (n : ℕ) (k v w : Bytes)
      → redb.get (t.before d) k ≡ some v
      → is_expired t.now v ≡ true
      → redb.get (t.between (t.before d)) k ≡ some w
      → is_expired t.now w ≡ false
      → purge_expired redb t.now t.between (t.before d) ≡ some (d', n)
      → redb.get (purge_once t d) k ≡ none
  unfolding purge_once
  purge_once-loses t d d' n k v w held late renewed live purged =
      rw (purged, purge_once)
        ((purge_expired-get redb t.now t.between (t.before d) d' n k v purged held).0 late)
