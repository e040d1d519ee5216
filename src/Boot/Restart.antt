-- ===== src/Boot/Restart.antt =====
-- What a start finds of what the writer of the cache was sent before.
use rust_dns.Base.{
  false, ℕ, zero, suc, ◌%◌, ◌^◌, ◌≡◌, ◌≤◌, ◌<◌, inl, inr, refl, sym, ap, ◌∙◌, true, some, List, [],
  ◌∷◌, ◌++◌, length, take, arith, Option-cases, In, here, there, not-In-nil, ◌-◌,
}
use rust_dns.Cache.Store.Write.{Untouched, write_batch-get}
use rust_dns.Cache.Writer.{run_writer, persist, batch_max, run_writer-stores_at_tick}
use rust_dns.Batch.Order.{start, received, is_closed}
use rust_dns.State.{Moka}
use rust_dns.Cache.Redb.{Redb}
use rust_dns.Boot.{insert_entries, warm_load}
use rust_dns.Cache.{CacheKey, CachedResponse, enc_key, IsKey, IsResponse, enc_val}
use rust_dns.Cache.Store.{Item, write_batch, read_all_valid}
use rust_dns.Batch.{Event, tick}
use rust_dns.Batch.Preserves.{run-preserves}
use rust_dns.Cache.Store.Load.{read_all_valid-In, valid_entry-enc}

In-split :
    {A : Type 0} {a : A} (xs : List A)
    → In a xs
    → (before : List A) × (after : List A) × (xs ≡ before ++ (a ∷ after))
In-split [] i = absurd (not-In-nil i)
In-split (x ∷ xs) (here same) = ([], xs, ap (λ y. y ∷ xs) (sym same))
In-split (x ∷ xs) (there i) =
    let (before, after, e) = In-split xs i in (x ∷ before, after, ap (λ l. x ∷ l) e)

take_all : {A : Type 0} (n : ℕ) (xs : List A) → length xs ≤ n → take n xs ≡ xs
take_all zero [] fits = refl
take_all zero (x ∷ xs) fits = absurd (omega (arith, fits))
take_all (suc n) [] fits = refl
take_all (suc n) (x ∷ xs) fits = ap (λ l. x ∷ l) (take_all n xs (omega (arith, fits)))

module _ (m : Moka) where
  insert_entries-append :
      (now : ℕ) (xs ys : List Item) (c : m.Cache)
      → insert_entries m now (xs ++ ys) c ≡ insert_entries m now ys (insert_entries m now xs c)
  unfolding insert_entries
  insert_entries-append now [] ys c = refl
  insert_entries-append now ((k, v) ∷ xs) ys c =
      insert_entries-append now xs ys (m.insert now k v c)

  -- The cache is made by inserting some entries, then this one, then others.
  pub record Warmed (now : ℕ) (k : CacheKey) (v : CachedResponse) (build cache : m.Cache)
      : Type 0 where
    pub before : List Item
    pub after : List Item
    pub made :
        cache ≡ insert_entries m now after (m.insert now k v (insert_entries m now before build))

  warm_load-Warmed :
      (now max_entries : ℕ) (k : CacheKey) (v : CachedResponse) (items : List Item)
      (build : m.Cache)
      → In (k, v) items
      → length items ≤ max_entries
      → Warmed now k v build (warm_load m now max_entries (some items) build)
  unfolding warm_load insert_entries
  warm_load-Warmed now max_entries k v items build i fits =
      let (before, after, split) = In-split items i in
      record {
        before = before;
        after = after;
        made =
            ap (λ l. insert_entries m now l build) (take_all max_entries items fits ∙ split)
            ∙ insert_entries-append now before ((k, v) ∷ after) build;
      }

persist-has_table :
    (redb : Redb) (batch : List Item) (d : redb.Db)
    → redb.has_table d ≡ true
    → redb.has_table (persist redb batch d) ≡ true
unfolding persist
persist-has_table redb batch d table = elim (Option-cases (write_batch redb batch d)) [
  | inl failed ↦ rw (failed, persist) table
  | inr (d', written) ↦ rw (written, persist) (write_batch-get redb batch d d' [] written).1
]

-- Let the store have its table, every batch commit, and nothing but the writer change the store. An
-- entry that was the last to be sent for its key before a tick of the writer, with none sent for the
-- key since, however far the writer has come after that tick when the process ends: if the entry fits
-- the stored form and has not expired at the next start, and the store can be read then and holds no
-- more unexpired entries than the RAM cache may, then the start inserts it into the RAM cache, with
-- the seconds that it has left modulo 2^32.
pub restart_warms :
    (redb : Redb) (m : Moka) (d : redb.Db) (es rest : List (Event Item)) (before later : List Item)
    (k : CacheKey) (v : CachedResponse) (now max_entries : ℕ) (out : List Item) (build : m.Cache)
    → ((batch : List Item) (x : redb.Db) → (x' : redb.Db) × (write_batch redb batch x ≡ some x'))
    → redb.has_table d ≡ true
    → is_closed es ≡ false
    → received es ≡ before ++ ((k, v) ∷ later)
    → Untouched (enc_key k) later
    → Untouched (enc_key k) (received rest)
    → IsKey k
    → IsResponse v
    → now < v.expires_unix
    → read_all_valid redb now (run_writer redb d (es ++ (tick ∷ rest))).world ≡ some out
    → length out ≤ max_entries
    → Warmed m now k
        (record v { ttl_secs = (v.expires_unix - now) % 2 ^ 32 })
        build
        (warm_load m now max_entries (some out) build)
restart_warms redb m d es rest before later k v now max_entries out build commits table more sent u
      untouched hk hv live read fits =
    let events = es ++ (tick ∷ rest) in
    let held =
      run_writer-stores_at_tick redb d es rest before later k v commits more sent u untouched in
    let there_is : redb.has_table (run_writer redb d events).world ≡ true =
      unfold run_writer in
      run-preserves (persist redb) batch_max (λ x. redb.has_table x ≡ true)
        (λ b x t. persist-has_table redb b x t) events (start d) table in
    warm_load-Warmed m now max_entries k _ out build
      (read_all_valid-In redb now (run_writer redb d events).world out _ (enc_key k) (enc_val v)
        read there_is held (valid_entry-enc redb now k v hk hv live))
      fits
