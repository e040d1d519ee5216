-- ===== src/Cache/Store/Write.antt =====
-- What a committed batch leaves in the database.
use rust_dns.Base.{
  ◌≡◌, ◌≢◌, refl, ap, ◌∙◌, inl, inr, true, false, Option, none, some, List, [], ◌∷◌, ◌++◌, All,
  Bool-cases, if◌then◌else◌,
}
use rust_dns.Bytes.{Bytes}
use rust_dns.Text.{equal, equal_iff, equal_refl}
use rust_dns.Cache.{CacheKey, CachedResponse, enc_key, enc_val}
use rust_dns.Cache.Redb.{Redb}
use rust_dns.Cache.Store.{Item, ◌>>=◌, insert_all, write_batch}

-- Inversion of a step that did not fail.
pub >>=-eq-some {ℓ κ} :
    {A : Type ℓ} {B : Type κ} (m : Option A) (f : A → Option B) {b : B}
    → (m >>= f) ≡ some b
    → (a : A) × (m ≡ some a) × (f a ≡ some b)
>>=-eq-some none f h = cc
>>=-eq-some (some a) f h = (a, refl, h)

-- What a key holds after the items were written in turn, if it held `old` before.
abbrev pub last_write : Bytes → List Item → Option Bytes → Option Bytes
last_write j [] old = old
last_write j ((k, v) ∷ items) old =
    last_write j items (if equal (enc_key k) j then some (enc_val v) else old)

abbrev pub Untouched : Bytes → List Item → Type 0
Untouched j items = All (λ e. enc_key e.0 ≢ j) items

equal-ne : (a b : Bytes) → a ≢ b → equal a b ≡ false
equal-ne a b n = elim (Bool-cases (equal a b)) [
  | inl e ↦ absurd (n ((equal_iff a b).0 e))
  | inr e ↦ e
]

pub last_write-Untouched :
    (j : Bytes) (items : List Item) (old : Option Bytes)
    → Untouched j items
    → last_write j items old ≡ old
last_write-Untouched j [] old u = refl
last_write-Untouched j ((k, v) ∷ items) old (n, u) =
    rw (equal-ne (enc_key k) j n) (last_write-Untouched j items old u)

pub last_write-last :
    (k : CacheKey) (v : CachedResponse) (before later : List Item) (old : Option Bytes)
    → Untouched (enc_key k) later
    → last_write (enc_key k) (before ++ ((k, v) ∷ later)) old ≡ some (enc_val v)
last_write-last k v [] later old u =
    let e : (if equal (enc_key k) (enc_key k) then some (enc_val v) else old) ≡ some (enc_val v) =
      rw (equal_refl (enc_key k)) in
    ap (last_write (enc_key k) later) e
    ∙ last_write-Untouched (enc_key k) later (some (enc_val v)) u
last_write-last k v ((j, w) ∷ before) later old u =
    last_write-last k v before later
      (if equal (enc_key j) (enc_key k) then some (enc_val w) else old) u

module _ (redb : Redb) where
  insert_all-get :
      (items : List Item) (t t' : redb.Txn) (j : Bytes)
      → insert_all redb items t ≡ some t'
      → (redb.get_txn t' j ≡ last_write j items (redb.get_txn t j))
        × (redb.table_open t' ≡ redb.table_open t)
  unfolding insert_all
  insert_all-get [] t t' j h = (cc, cc)
  insert_all-get ((k, v) ∷ items) t t' j h =
      let (u, e, rest) =
        >>=-eq-some (redb.insert (enc_key k) (enc_val v) t) (insert_all redb items) h in
      let (ih, ih_open) = insert_all-get items u t' j rest in
      (
        rw (← redb.get-insert (enc_key k) (enc_val v) t u j e) ih,
        ih_open ∙ redb.table_open-insert (enc_key k) (enc_val v) t u e,
      )

  pub write_batch-get :
      (items : List Item) (d d' : redb.Db) (j : Bytes)
      → write_batch redb items d ≡ some d'
      → (redb.get d' j ≡ last_write j items (redb.get d j)) × (redb.has_table d' ≡ true)
  unfolding write_batch
  write_batch-get items d d' j h =
      let (w, began, h1) = >>=-eq-some (redb.begin_write d) _ h in
      let (t, opened, h2) = >>=-eq-some (redb.open_table w) _ h1 in
      let (t', inserted, committed) = >>=-eq-some (insert_all redb items t) redb.commit h2 in
      let (stored, stays) = insert_all-get items t t' j inserted in
      let before : redb.get_txn t j ≡ redb.get d j =
        redb.get-open_table w t j opened ∙ redb.get-begin_write d w j began in
      (
        redb.get-commit t' d' j committed ∙ stored ∙ ap (last_write j items) before,
        redb.has_table-commit t' d' committed ∙ stays ∙ redb.open_table-opens w t opened,
      )

  -- A batch that was committed left for each of its keys the last value that it has for it.
  pub write_batch-stores :
      (before later : List Item) (k : CacheKey) (v : CachedResponse) (d d' : redb.Db)
      → Untouched (enc_key k) later
      → write_batch redb (before ++ ((k, v) ∷ later)) d ≡ some d'
      → (redb.get d' (enc_key k) ≡ some (enc_val v)) × (redb.has_table d' ≡ true)
  write_batch-stores before later k v d d' u h =
      let (stored, table) = write_batch-get (before ++ ((k, v) ∷ later)) d d' (enc_key k) h in
      (stored ∙ last_write-last k v before later (redb.get d (enc_key k)) u, table)

  -- It changed no other key.
  pub write_batch-keeps :
      (items : List Item) (d d' : redb.Db) (j : Bytes)
      → Untouched j items
      → write_batch redb items d ≡ some d'
      → redb.get d' j ≡ redb.get d j
  write_batch-keeps items d d' j u h =
      (write_batch-get items d d' j h).0 ∙ last_write-Untouched j items (redb.get d j) u
