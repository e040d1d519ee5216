-- ===== src/Cache/Redb.antt =====
-- The embedded key-value store redb, which src/cache.rs calls for its one table: a parameter. Every
-- call may fail (`none`). A transaction that is not committed leaves the database as it was.
use rust_dns.Base.{
  ◌≡◌, ◌⊎◌, Option, none, some, List, [], ◌∷◌, In, if◌then◌else◌, arith, Bool, false, In-cons,
  Bool-cases, map, true, inl, In-map, there, inr, here, map-In, refl,
}
use rust_dns.Bytes.{Bytes}
use rust_dns.Text.{equal, equal_iff, equal_refl}

pub record Redb : Type 1 where
  pub Db : Type 0
  pub Txn : Type 0
  -- What a key holds in the database, and in an open transaction.
  pub get : Db → Bytes → Option Bytes
  pub get_txn : Txn → Bytes → Option Bytes
  pub begin_write : Db → Option Txn
  pub open_table : Txn → Option Txn
  pub insert : Bytes → Bytes → Txn → Option Txn
  pub remove : Bytes → Txn → Option Txn
  pub commit : Txn → Option Db
  -- A snapshot to read from is the database itself; `false` means that the table is not there.
  pub begin_read : Db → Option Db
  pub has_table : Db → Bool
  -- The rows in turn, each of which may fail.
  pub iter : Db → Option (List (Option (Bytes × Bytes)))
  pub get-begin_write :
      (d : Db) (t : Txn) (j : Bytes) → begin_write d ≡ some t → get_txn t j ≡ get d j
  pub get-open_table :
      (t t' : Txn) (j : Bytes) → open_table t ≡ some t' → get_txn t' j ≡ get_txn t j
  pub get-insert :
      (k v : Bytes) (t t' : Txn) (j : Bytes)
      → insert k v t ≡ some t'
      → get_txn t' j ≡ (if equal k j then some v else get_txn t j)
  pub get-remove :
      (k : Bytes) (t t' : Txn) (j : Bytes)
      → remove k t ≡ some t'
      → get_txn t' j ≡ (if equal k j then none else get_txn t j)
  pub get-commit : (t : Txn) (d : Db) (j : Bytes) → commit t ≡ some d → get d j ≡ get_txn t j
  pub read_same : (d r : Db) → begin_read d ≡ some r → r ≡ d
  -- A table that was opened for writing is there, and stays.
  pub table_open : Txn → Bool
  pub open_table-opens : (t t' : Txn) → open_table t ≡ some t' → table_open t' ≡ true
  pub table_open-insert :
      (k v : Bytes) (t t' : Txn) → insert k v t ≡ some t' → table_open t' ≡ table_open t
  pub table_open-remove :
      (k : Bytes) (t t' : Txn) → remove k t ≡ some t' → table_open t' ≡ table_open t
  pub has_table-commit : (t : Txn) (d : Db) → commit t ≡ some d → has_table d ≡ table_open t
  -- A row that is read is what its key holds; every key that holds something has its row, unless the
  -- reading of a row failed.
  pub iter_sound :
      (d : Db) (rows : List (Option (Bytes × Bytes))) (k v : Bytes)
      → iter d ≡ some rows
      → In (some (k, v)) rows
      → get d k ≡ some v
  pub iter_complete :
      (d : Db) (rows : List (Option (Bytes × Bytes))) (k v : Bytes)
      → iter d ≡ some rows
      → get d k ≡ some v
      → In (some (k, v)) rows ⊎ In none rows

-- A database that never fails: the rows as a list, the latest first.
abbrev pub Rows : Type 0
Rows = List (Bytes × Bytes)

unfoldable pub get_row : Rows → Bytes → Option Bytes
get_row [] j = none
get_row ((k, v) ∷ d) j = if equal k j then some v else get_row d j

unfoldable pub without : Bytes → Rows → Rows
without k [] = []
without k ((j, v) ∷ d) = let rest = without k d in if equal k j then rest else (j, v) ∷ rest

unfoldable pub current : Rows → Rows
current [] = []
current ((k, v) ∷ d) = (k, v) ∷ without k (current d)

pub get-without :
    (k j : Bytes) (d : Rows) → get_row (without k d) j ≡ (if equal k j then none else get_row d j)
unfolding get_row without
get-without k j [] = ground arith
get-without k j ((i, v) ∷ d) =
    ground (arith, get-without k j d, equal_iff k i, equal_iff k j, equal_iff i j)

In-without :
    (k j v : Bytes) (d : Rows) → In (j, v) (without k d) → In (j, v) d × (equal k j ≡ false)
unfolding without
In-without k j v [] m = elim m [ ]
In-without k j v ((i, w) ∷ d) m = elim (Bool-cases (equal k i)) [
  | inl same ↦ let (n, e) = In-without k j v d (rw same at m) in (there n, e)
  | inr other ↦ elim (In-cons (rw other at m)) [
    | inl e ↦ (here e, ground (arith, e, other))
    | inr n ↦ let (n', e) = In-without k j v d n in (there n', e)
  ]
]

without-In : (k j v : Bytes) (d : Rows) → equal k j ≡ false → In (j, v) d → In (j, v) (without k d)
unfolding without
without-In k j v [] e m = m
without-In k j v ((i, w) ∷ d) e m = elim (Bool-cases (equal k i)) [
  | inl same ↦ elim (In-cons m) [
    | inl p ↦ absurd (ground (arith, p))
    | inr n ↦ rw same (without-In k j v d e n)
  ]
  | inr other ↦ elim (In-cons m) [
    | inl p ↦ rw other (here p)
    | inr n ↦ rw other (there (without-In k j v d e n))
  ]
]

current-get : (d : Rows) (k v : Bytes) → In (k, v) (current d) → get_row d k ≡ some v
unfolding current get_row
current-get [] k v m = elim m [ ]
current-get ((i, w) ∷ d) k v m = elim (In-cons m) [
  | inl e ↦ ground (arith, e, equal_refl i)
  | inr n ↦ let (n', e) = In-without i k v (current d) n in ground (arith, e, current-get d k v n')
]

get-current : (d : Rows) (k v : Bytes) → get_row d k ≡ some v → In (k, v) (current d)
unfolding current get_row
get-current [] k v h = cc
get-current ((i, w) ∷ d) k v h = elim (Bool-cases (equal i k)) [
  | inl same ↦ here (ground (arith, equal_iff i k))
  | inr other ↦ there (without-In i k v (current d) other (get-current d k v (ground arith)))
]

pub rows-get :
    (d : Rows) (rows : List (Option (Bytes × Bytes))) (k v : Bytes)
    → some (map some (current d)) ≡ some rows
    → In (some (k, v)) rows
    → get_row d k ≡ some v
rows-get d rows k v e m =
    let e' : map some (current d) ≡ rows = cc in
    let (p, n, q) = In-map some (current d) (rw (← e') at m) in
    let q' : (k, v) ≡ p = cc in current-get d k v (rw q' n)

pub get-rows :
    (d : Rows) (rows : List (Option (Bytes × Bytes))) (k v : Bytes)
    → some (map some (current d)) ≡ some rows
    → get_row d k ≡ some v
    → In (some (k, v)) rows ⊎ In none rows
get-rows d rows k v e h =
    let e' : map some (current d) ≡ rows = cc in inl (rw (← e') (map-In some (get-current d k v h)))

pub get-same : (d t : Rows) (j : Bytes) → some d ≡ some t → get_row t j ≡ get_row d j
get-same d t j e = cc

pub get-pushed :
    (k v : Bytes) (t t' : Rows) (j : Bytes)
    → some ((k, v) ∷ t) ≡ some t'
    → get_row t' j ≡ (if equal k j then some v else get_row t j)
unfolding get_row
get-pushed k v t t' j e = ground (arith, e)

pub get-erased :
    (k : Bytes) (t t' : Rows) (j : Bytes)
    → some (without k t) ≡ some t'
    → get_row t' j ≡ (if equal k j then none else get_row t j)
get-erased k t t' j e = ground (arith, e, get-without k j t)

pub same_snapshot : (d r : Rows) → some d ≡ some r → r ≡ d
same_snapshot d r e = cc

abbrev pub never_fails : Redb
never_fails = record {
  Db = Rows;
  Txn = Rows;
  get = get_row;
  get_txn = get_row;
  begin_write = some;
  open_table = some;
  insert = λ k v t. some ((k, v) ∷ t);
  remove = λ k t. some (without k t);
  commit = some;
  begin_read = some;
  has_table = λ d. true;
  iter = λ d. some (map some (current d));
  get-begin_write = get-same;
  get-open_table = get-same;
  get-insert = get-pushed;
  get-remove = get-erased;
  get-commit = get-same;
  read_same = same_snapshot;
  table_open = λ t. true;
  open_table-opens = λ t t' e. refl;
  table_open-insert = λ k v t t' e. refl;
  table_open-remove = λ k t t' e. refl;
  has_table-commit = λ t d e. refl;
  iter_sound = rows-get;
  iter_complete = get-rows;
}
