-- ===== src/Cache/Store.antt =====
-- src/cache.rs: the durable store behind the cache, over the table of redb.
pub mod Write
pub mod Load
pub mod Purge
use rust_dns.Base.{
  ℕ, ◌-◌, ◌%◌, ◌^◌, ◌≡◌, Bool, true, false, Option, none, some, List, [], ◌∷◌, length, is_empty,
  ltb, leb, if◌then◌else◌,
}
use rust_dns.Bytes.{Bytes}
use rust_dns.Cache.{CacheKey, CachedResponse, enc_key, dec_key, enc_val, dec_val}
use rust_dns.Cache.Redb.{Redb}

infixl 5 ◌>>=◌
abbrev pub ◌>>=◌ {ℓ κ} : {A : Type ℓ} {B : Type κ} → Option A → (A → Option B) → Option B
none >>= f = none
some a >>= f = f a

abbrev pub Item : Type 0
Item = CacheKey × CachedResponse

module _ (redb : Redb) where
  -- `Store::open`: makes the table.
  unfoldable pub open_store : redb.Db → Option redb.Db
  open_store d = do w ← redb.begin_write d; t ← redb.open_table w; redb.commit t

  unfoldable pub insert_all : List Item → redb.Txn → Option redb.Txn
  insert_all [] t = some t
  insert_all ((k, v) ∷ items) t = do t' ← redb.insert (enc_key k) (enc_val v) t; insert_all items t'

  unfoldable pub write_batch : List Item → redb.Db → Option redb.Db
  unfolding insert_all
  write_batch items d = do
    w ← redb.begin_write d
    t ← redb.open_table w
    t' ← insert_all items t
    redb.commit t'

  unfoldable pub remove_all : List Bytes → redb.Txn → Option redb.Txn
  remove_all [] t = some t
  remove_all (k ∷ keys) t = do t' ← redb.remove k t; remove_all keys t'

-- What `read_all_valid` makes of a row, at the time `now`.
unfoldable pub valid_entry : ℕ → Bytes → Bytes → Option Item
valid_entry now k v = do
  key ← dec_key k
  val ← dec_val v
  if ltb now val.expires_unix
      then some (key, record val { ttl_secs = (val.expires_unix - now) % 2 ^ 32 })
      else none

abbrev pub push_some {ℓ} : {A : Type ℓ} → Option A → List A → List A
push_some none l = l
push_some (some a) l = a ∷ l

-- The loops over the rows end at the first row that cannot be read.
unfoldable pub collect_valid : ℕ → List (Option (Bytes × Bytes)) → Option (List Item)
unfolding valid_entry
collect_valid now [] = some []
collect_valid now (none ∷ rows) = none
collect_valid now (some (k, v) ∷ rows) = do
  rest ← collect_valid now rows
  some (push_some (valid_entry now k v) rest)

unfoldable pub is_expired : ℕ → Bytes → Bool
is_expired now v = elim (dec_val v) [ none ↦ false | some val ↦ leb val.expires_unix now ]

unfoldable pub collect_expired : ℕ → List (Option (Bytes × Bytes)) → Option (List Bytes)
unfolding is_expired
collect_expired now [] = some []
collect_expired now (none ∷ rows) = none
collect_expired now (some (k, v) ∷ rows) = do
  rest ← collect_expired now rows
  some (if is_expired now v then k ∷ rest else rest)

module _ (redb : Redb) where
  unfoldable pub read_all_valid : ℕ → redb.Db → Option (List Item)
  unfolding collect_valid
  read_all_valid now d = do
    r ← redb.begin_read d
    if redb.has_table r then (do rows ← redb.iter r; collect_valid now rows) else some []

  -- The read transaction of `purge_expired`.
  unfoldable pub expired_keys : ℕ → redb.Db → Option (List Bytes)
  unfolding collect_expired
  expired_keys now d = do
    r ← redb.begin_read d
    if redb.has_table r then (do rows ← redb.iter r; collect_expired now rows) else none

  -- Its write transaction.
  unfoldable pub delete_keys : List Bytes → redb.Db → Option redb.Db
  unfolding remove_all
  delete_keys keys d = do
    w ← redb.begin_write d
    t ← redb.open_table w
    t' ← remove_all redb keys t
    redb.commit t'

  -- Between the two transactions other tasks may commit: `between` is what they make of the database.
  -- The result is the database and the number of rows.
  unfoldable pub purge_expired : ℕ → (redb.Db → redb.Db) → redb.Db → Option (redb.Db × ℕ)
  unfolding expired_keys delete_keys
  purge_expired now between d = do
    expired ← expired_keys now d
    if is_empty expired
        then some (between d, 0)
        else do d' ← delete_keys expired (between d); some (d', length expired)
