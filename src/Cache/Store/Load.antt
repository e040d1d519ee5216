-- ===== src/Cache/Store/Load.antt =====
-- What `read_all_valid` brings back after a restart.
use rust_dns.Base.{
  ℕ, ◌≡◌, inl, inr, refl, sym, ◌∙◌, Option, none, some, List, [], ◌∷◌, In, here, there, In-cons,
  arith, Option-cases, not-In-nil, some-inj, ap, ◌<◌, Bool-cases, true, false, ◌-◌, ltb, ◌%◌, ◌^◌,
  ltb→lt, ◌++◌, lt→ltb,
}
use rust_dns.Bytes.{Bytes}
use rust_dns.Cache.Store.{Item, valid_entry, collect_valid, read_all_valid, ◌>>=◌, write_batch}
use rust_dns.Cache.Store.Write.{>>=-eq-some, Untouched, write_batch-stores}
use rust_dns.Cache.{CachedResponse, dec_key, dec_val, CacheKey, IsKey, IsResponse, enc_key, enc_val}
use rust_dns.Cache.Redb.{Redb}
use rust_dns.Cache.Codec.{dec_key-enc_key, dec_val-enc_val}

abbrev pub Row : Type 0
Row = Option (Bytes × Bytes)

-- An entry comes from a row that was read, and what the row is worth now.
pub record Loaded (now : ℕ) (rows : List Row) (e : Item) : Type 0 where
  pub key_bytes : Bytes
  pub val_bytes : Bytes
  pub row : In (some (key_bytes, val_bytes)) rows
  pub entry : valid_entry now key_bytes val_bytes ≡ some e

Loaded-there :
    {now : ℕ} {r : Row} {rows : List Row} {e : Item} → Loaded now rows e → Loaded now (r ∷ rows) e
Loaded-there l = record {
  key_bytes = l.key_bytes;
  val_bytes = l.val_bytes;
  row = there l.row;
  entry = l.entry;
}

collect_valid-Loaded :
    (now : ℕ) (rows : List Row) (out : List Item) (e : Item)
    → collect_valid now rows ≡ some out
    → In e out
    → Loaded now rows e
unfolding collect_valid
collect_valid-Loaded now [] out e h m = absurd (not-In-nil (rw (sym (some-inj h)) at m))
collect_valid-Loaded now (none ∷ rows) out e h m = absurd (cc)
collect_valid-Loaded now (some (k, v) ∷ rows) out e h m =
    let (rest, loaded, pushed) = >>=-eq-some (collect_valid now rows) _ h in
    elim (Option-cases (valid_entry now k v)) [
      | inl skip ↦
          let same : rest ≡ out = ground (arith, skip, pushed) in
          Loaded-there (collect_valid-Loaded now rows rest e loaded (rw (sym same) at m))
      | inr (x, took) ↦
          let same : x ∷ rest ≡ out = ground (arith, took, pushed) in
          elim (In-cons (rw (sym same) at m)) [
            | inl p ↦ record {
              key_bytes = k;
              val_bytes = v;
              row = here refl;
              entry = took ∙ ap some (sym p);
            }
            | inr n ↦ Loaded-there (collect_valid-Loaded now rows rest e loaded n)
          ]
    ]

Loaded-collect_valid :
    (now : ℕ) (rows : List Row) (out : List Item) (k v : Bytes) (e : Item)
    → collect_valid now rows ≡ some out
    → In (some (k, v)) rows
    → valid_entry now k v ≡ some e
    → In e out
unfolding collect_valid
Loaded-collect_valid now [] out k v e h m took = absurd (not-In-nil m)
Loaded-collect_valid now (none ∷ rows) out k v e h m took = absurd (cc)
Loaded-collect_valid now (some (j, w) ∷ rows) out k v e h m took =
    let (rest, loaded, pushed) = >>=-eq-some (collect_valid now rows) _ h in
    elim (In-cons m) [
      | inl p ↦
          let same : e ∷ rest ≡ out = ground (arith, took, pushed, p) in rw (← same) (here refl)
      | inr n ↦
          let ih : In e rest = Loaded-collect_valid now rows rest k v e loaded n took in
          elim (Option-cases (valid_entry now j w)) [
            | inl skip ↦ let same : rest ≡ out = ground (arith, skip, pushed) in rw (← same) ih
            | inr (x, took') ↦
                let same : x ∷ rest ≡ out = ground (arith, took', pushed) in rw (← same) (there ih)
          ]
    ]

-- No row failed.
collect_valid-read :
    (now : ℕ) (rows : List Row) (out : List Item)
    → collect_valid now rows ≡ some out
    → ¬ In none rows
unfolding collect_valid
collect_valid-read now [] out h m = not-In-nil m
collect_valid-read now (none ∷ rows) out h m = cc
collect_valid-read now (some (k, v) ∷ rows) out h m =
    let (rest, loaded, pushed) = >>=-eq-some (collect_valid now rows) _ h in
    elim (In-cons m) [ inl p ↦ cc | inr n ↦ collect_valid-read now rows rest loaded n ]

-- What it takes for a row to be loaded: the entry is the decoded row with the seconds that it has left.
pub record Fresh (now : ℕ) (e : Item) (stored : CachedResponse) : Type 0 where
  pub in_time : now < stored.expires_unix
  pub same_wire : e.1.wire ≡ stored.wire
  pub same_expiry : e.1.expires_unix ≡ stored.expires_unix
  pub left : e.1.ttl_secs ≡ (stored.expires_unix - now) % 2 ^ 32

valid_entry-Fresh :
    (now : ℕ) (k v : Bytes) (e : Item)
    → valid_entry now k v ≡ some e
    → (dec_key k ≡ some e.0)
      × ((stored : CachedResponse) × (dec_val v ≡ some stored) × Fresh now e stored)
unfolding valid_entry
valid_entry-Fresh now k v e h =
    let (key, dk, h1) = >>=-eq-some (dec_key k) _ h in
    let (val, dv, h2) = >>=-eq-some (dec_val v) _ h1 in
    elim (Bool-cases (ltb now val.expires_unix)) [
      | inl live ↦
          let same : e ≡ (key, record val { ttl_secs = (val.expires_unix - now) % 2 ^ 32 }) =
            ground (arith, live, h2) in
          rw same (
            dk,
            (
              val,
              dv,
              record {
                in_time = ltb→lt now val.expires_unix live;
                same_wire = refl;
                same_expiry = refl;
                left = refl;
              },
            ),
          )
      | inr gone ↦ absurd (ground (arith, gone, h2))
    ]

module _ (redb : Redb) where
  read_all_valid-rows :
      (now : ℕ) (d : redb.Db) (out : List Item)
      → read_all_valid redb now d ≡ some out
      → redb.has_table d ≡ true
      → (rows : List Row) × (redb.iter d ≡ some rows) × (collect_valid now rows ≡ some out)
  unfolding read_all_valid
  read_all_valid-rows now d out h table =
      let (r, began, h1) = >>=-eq-some (redb.begin_read d) _ h in
      let same : r ≡ d = redb.read_same d r began in
      let h2 : (redb.iter d >>= collect_valid now) ≡ some out = rw (same, table) at h1 in
      >>=-eq-some (redb.iter d) (collect_valid now) h2

  read_all_valid-no_table :
      (now : ℕ) (d : redb.Db) (out : List Item)
      → read_all_valid redb now d ≡ some out
      → redb.has_table d ≡ false
      → [] ≡ out
  unfolding read_all_valid
  read_all_valid-no_table now d out h empty =
      let (r, began, h1) = >>=-eq-some (redb.begin_read d) _ h in
      let same : r ≡ d = redb.read_same d r began in some-inj (rw (same, empty) at h1)

  -- What is loaded is what the rows of the store are worth.
  pub read_all_valid-In :
      (now : ℕ) (d : redb.Db) (out : List Item) (e : Item) (k v : Bytes)
      → read_all_valid redb now d ≡ some out
      → redb.has_table d ≡ true
      → redb.get d k ≡ some v
      → valid_entry now k v ≡ some e
      → In e out
  read_all_valid-In now d out e k v h table held worth =
      let (rows, read, collected) = read_all_valid-rows now d out h table in
      elim (redb.iter_complete d rows k v read held) [
        | inl m ↦ Loaded-collect_valid now rows out k v e collected m worth
        | inr failed ↦ absurd (collect_valid-read now rows out collected failed)
      ]

  pub read_all_valid-row :
      (now : ℕ) (d : redb.Db) (out : List Item) (e : Item)
      → read_all_valid redb now d ≡ some out
      → In e out
      → (k : Bytes) × (v : Bytes) × (redb.get d k ≡ some v) × (valid_entry now k v ≡ some e)
  read_all_valid-row now d out e h m = elim (Bool-cases (redb.has_table d)) [
    | inl table ↦
        let (rows, read, collected) = read_all_valid-rows now d out h table in
        let l = collect_valid-Loaded now rows out e collected m in
        (
          l.key_bytes,
          l.val_bytes,
          redb.iter_sound d rows l.key_bytes l.val_bytes read l.row,
          l.entry,
        )
    | inr empty ↦ absurd (not-In-nil (rw (sym (read_all_valid-no_table now d out h empty)) at m))
  ]

  -- Everything that is loaded is decoded from a row of the store that is not yet expired, and has
  -- just the seconds left until then, modulo 2^32.
  pub read_all_valid_sound :
      (now : ℕ) (d : redb.Db) (out : List Item) (e : Item)
      → read_all_valid redb now d ≡ some out
      → In e out
      → (key_bytes : Bytes) × (val_bytes : Bytes) × (stored : CachedResponse) × (redb.get d
            key_bytes
          ≡ some val_bytes)
        × (dec_key key_bytes ≡ some e.0)
        × (dec_val val_bytes ≡ some stored)
        × Fresh now e stored
  read_all_valid_sound now d out e h m =
      let (k, v, held, worth) = read_all_valid-row now d out e h m in
      let (dk, (stored, dv, fresh)) = valid_entry-Fresh now k v e worth in
      (k, v, stored, held, dk, dv, fresh)

  pub valid_entry-enc :
      (now : ℕ) (k : CacheKey) (v : CachedResponse)
      → IsKey k
      → IsResponse v
      → now < v.expires_unix
      → valid_entry now (enc_key k) (enc_val v)
        ≡ some (k, record v { ttl_secs = (v.expires_unix - now) % 2 ^ 32 })
  unfolding valid_entry
  valid_entry-enc now k v hk hv live =
      rw (dec_key-enc_key k hk, dec_val-enc_val v hv, lt→ltb now v.expires_unix live) refl

  -- An entry that was the last of a committed batch for its key, that fits the stored form and has
  -- not expired, is among what is loaded from then on, with the seconds that it has left modulo
  -- 2^32.
  pub read_all_valid-write_batch :
      (now : ℕ) (before later : List Item) (k : CacheKey) (v : CachedResponse) (d d' : redb.Db)
      (out : List Item)
      → IsKey k
      → IsResponse v
      → now < v.expires_unix
      → Untouched (enc_key k) later
      → write_batch redb (before ++ ((k, v) ∷ later)) d ≡ some d'
      → read_all_valid redb now d' ≡ some out
      → In (k, record v { ttl_secs = (v.expires_unix - now) % 2 ^ 32 }) out
  read_all_valid-write_batch now before later k v d d' out hk hv live u written h =
      let (held, table) = write_batch-stores redb before later k v d d' u written in
      read_all_valid-In now d' out _ (enc_key k) (enc_val v) h table held
        (valid_entry-enc now k v hk hv live)
