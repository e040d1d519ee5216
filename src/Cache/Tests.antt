-- ===== src/Cache/Tests.antt =====
-- The tests of src/cache.rs, and its theorems at a concrete store.
use rust_dns.Boot.{warm_load}
use rust_dns.State.Toy.{toy_moka}
use rust_dns.Boot.Restart.{Warmed, restart_warms}
use rust_dns.Boot.Purge.{
  Tick, Keeps, Holds, purge_once, purge_task, purge_task-Holds, purge_once-loses,
}
use rust_dns.Base.{◌++◌, ℕ, ◌≤◌, true, none, ◌≡◌, refl, false, some, List, [], ◌∷◌, arith, In, ◌≢◌}
use rust_dns.Cache.Redb.{get_row, without, current, Rows, never_fails}
use rust_dns.Text.Utf8.{as_bytes, from_utf8}
use rust_dns.Bytes.{Bytes, from_be_bytes, to_be_bytes}
use rust_dns.Text.{equal, text}
use rust_dns.Cache.{CacheKey, CachedResponse, IsKey, IsResponse, enc_key, dec_val, dec_key, enc_val}
use rust_dns.Cache.Store.{write_batch, read_all_valid, purge_expired, is_expired, Item, insert_all}
use rust_dns.Batch.{Event, record_in, tick, closed}
use rust_dns.Cache.Store.Load.{read_all_valid-write_batch}
use rust_dns.Cache.Codec.{dec_val-enc_val, dec_key-enc_key}
use rust_dns.Cache.Writer.{run_writer, run_writer-stores}

abbrev key : CacheKey
key = record { name = text "example.com"; rtype = 1 }

abbrev other_key : CacheKey
other_key = record { name = text "example.com"; rtype = 28 }

-- What expires at the second 100.
abbrev entry : CachedResponse
entry = record { wire = 1 ∷ 2 ∷ 3 ∷ []; ttl_secs = 60; expires_unix = 100 }

abbrev expired : CachedResponse
expired = record { wire = 9 ∷ []; ttl_secs = 5; expires_unix = 40 }

key-IsKey : IsKey key
key-IsKey = record { name_scalar = ground arith; rtype_u16 = ground arith }

entry-IsResponse : IsResponse entry
entry-IsResponse = record {
  wire_bytes = ground arith;
  ttl_u32 = ground arith;
  expires_u64 = ground arith;
}

abbrev stored : Rows
stored = (enc_key other_key, enc_val expired) ∷ (enc_key key, enc_val entry) ∷ []

written : write_batch never_fails ((key, entry) ∷ (other_key, expired) ∷ []) [] ≡ some stored
unfolding write_batch
written = refl

loaded : read_all_valid never_fails 50 stored ≡ some ((key, record entry { ttl_secs = 50 }) ∷ [])
unfolding read_all_valid current without equal enc_key to_be_bytes dec_key as_bytes from_utf8
    dec_val enc_val from_be_bytes
loaded = refl

abbrev left : Rows
left = (enc_key key, enc_val entry) ∷ []

purged : purge_expired never_fails 50 (λ d. d) stored ≡ some (left, 1)
unfolding purge_expired current without equal enc_key to_be_bytes dec_val enc_val from_be_bytes
    as_bytes
purged = refl

loaded_after :
    read_all_valid never_fails 50 left ≡ some ((key, record entry { ttl_secs = 50 }) ∷ [])
unfolding read_all_valid current without dec_key enc_key to_be_bytes as_bytes from_utf8 dec_val
    enc_val from_be_bytes
loaded_after = refl

held : never_fails.get stored (enc_key other_key) ≡ some (enc_val expired)
unfolding enc_key enc_val get_row equal to_be_bytes as_bytes
held = refl

keys_differ : enc_key other_key ≢ enc_key key
unfolding enc_key to_be_bytes as_bytes
keys_differ e = cc

abbrev sent : List (Event Item)
sent = record_in (key, entry) ∷ tick ∷ record_in (other_key, expired) ∷ closed ∷ []

insert_all-total :
    (batch : List Item) (d : Rows) → (d' : Rows) × (insert_all never_fails batch d ≡ some d')
unfolding insert_all
insert_all-total [] d = (d, refl)
insert_all-total ((k, v) ∷ batch) d = insert_all-total batch ((enc_key k, enc_val v) ∷ d)

always_commits :
    (batch : List Item) (d : Rows) → (d' : Rows) × (write_batch never_fails batch d ≡ some d')
unfolding write_batch
always_commits batch d = let (d', e) = insert_all-total batch d in (d', rw e refl)

value_read : dec_val (enc_val entry) ≡ some entry
value_read = dec_val-enc_val entry entry-IsResponse

key_read : dec_key (enc_key key) ≡ some key
key_read = dec_key-enc_key key key-IsKey

read_all_valid-write_batch_example :
    In {A = Item} (key, record entry { ttl_secs = 50 }) ((key, record entry { ttl_secs = 50 }) ∷ [])
read_all_valid-write_batch_example =
    read_all_valid-write_batch never_fails 50 [] ((other_key, expired) ∷ []) key entry [] stored _
      key-IsKey entry-IsResponse (ground arith) (keys_differ, tt) written loaded

run_writer-stores_example :
    never_fails.get (run_writer never_fails [] sent).world (enc_key key) ≡ some (enc_val entry)
run_writer-stores_example =
    run_writer-stores never_fails [] sent [] ((other_key, expired) ∷ []) key entry always_commits
      refl refl (keys_differ, tt)

-- An entry, a tick, and an entry of another key that the writer still holds when the process ends.
abbrev first_sent : List (Event Item)
first_sent = record_in (key, entry) ∷ []

abbrev still_held : List (Event Item)
still_held = record_in (other_key, expired) ∷ []

loaded_again :
    read_all_valid never_fails 50
      (run_writer never_fails [] (first_sent ++ (tick ∷ still_held))).world
    ≡ some ((key, record entry { ttl_secs = 50 }) ∷ [])
unfolding read_all_valid current run_writer write_batch without equal enc_key to_be_bytes dec_key
    as_bytes from_utf8 dec_val enc_val from_be_bytes
loaded_again = refl

-- What a restart finds.
restart_warms_example :
    Warmed toy_moka 50 key
      (record entry { ttl_secs = 50 })
      []
      (warm_load toy_moka 50 10 (some ((key, record entry { ttl_secs = 50 }) ∷ [])) [])
restart_warms_example =
    restart_warms never_fails toy_moka [] first_sent still_held [] [] key entry 50 10
      ((key, record entry { ttl_secs = 50 }) ∷ []) [] always_commits refl refl refl tt
      (keys_differ, tt) key-IsKey entry-IsResponse (ground arith) loaded_again (ground arith)

still_live : is_expired 60 (enc_val entry) ≡ false
unfolding is_expired enc_val dec_val to_be_bytes from_be_bytes
still_live = refl

there_before : never_fails.get stored (enc_key key) ≡ some (enc_val entry)
unfolding enc_key enc_val get_row equal to_be_bytes as_bytes
there_before = refl

-- Nobody else writes at a tick.
abbrev quiet : ℕ → Tick Rows
quiet now = record { now = now; before = λ d. d; between = λ d. d }

-- The writer renews the entry between the two transactions of the purge.
abbrev renewing : Tick Rows
renewing = record {
  now = 50;
  before = λ d. d;
  between = λ d. (enc_key other_key, enc_val entry) ∷ d;
}

abbrev Same : Bytes → Type 0
Same v = v ≡ enc_val entry

Same-live : (v : Bytes) → Same v → is_expired 60 v ≡ false
Same-live v e = rw e still_live

quiet-Keeps : (now : ℕ) → now ≤ 60 → Keeps never_fails 60 Same (enc_key key) (quiet now)
quiet-Keeps now le = record { in_time = le; before = λ d p. p; between = λ d p. p }

another_row :
    (d : Rows)
    → Holds never_fails 60 Same (enc_key key) d
    → Holds never_fails 60 Same (enc_key key) ((enc_key other_key, enc_val entry) ∷ d)
unfolding enc_key get_row equal to_be_bytes as_bytes
another_row d p = p

renewing-Keeps : Keeps never_fails 60 Same (enc_key key) renewing
renewing-Keeps = record { in_time = ground arith; before = λ d p. p; between = another_row }

purge_task-Holds_example :
    Holds never_fails 60 Same
      (enc_key key)
      (purge_task never_fails (quiet 10 ∷ renewing ∷ quiet 60 ∷ []) stored)
purge_task-Holds_example =
    purge_task-Holds never_fails 60 Same (enc_key key) (quiet 10 ∷ renewing ∷ quiet 60 ∷ []) stored
      Same-live
      (quiet-Keeps 10 (ground arith), (renewing-Keeps, (quiet-Keeps 60 (ground arith), tt)))
      (enc_val entry, there_before, refl)

gone_late : is_expired 50 (enc_val expired) ≡ true
unfolding is_expired enc_val dec_val to_be_bytes from_be_bytes
gone_late = refl

renewed : never_fails.get (renewing.between stored) (enc_key other_key) ≡ some (enc_val entry)
unfolding enc_key enc_val get_row equal to_be_bytes as_bytes
renewed = refl

live_now : is_expired 50 (enc_val entry) ≡ false
unfolding is_expired enc_val dec_val to_be_bytes from_be_bytes
live_now = refl

renewed_purged : purge_expired never_fails 50 renewing.between stored ≡ some (left, 1)
unfolding purge_expired current without equal enc_key to_be_bytes dec_val enc_val from_be_bytes
    as_bytes
renewed_purged = refl

purge_once-loses_example :
    never_fails.get (purge_once never_fails renewing stored) (enc_key other_key) ≡ none
purge_once-loses_example =
    purge_once-loses never_fails renewing stored left 1 (enc_key other_key) (enc_val expired)
      (enc_val entry) held gone_late renewed live_now renewed_purged
