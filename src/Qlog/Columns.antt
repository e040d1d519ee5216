-- ===== src/Qlog/Columns.antt =====
-- src/qlog.rs: the table that a segment is written from. Arrow is a parameter.
use rust_dns.Base.{
  none, if◌then◌else◌, map, ℕ, suc, ◌≡◌, refl, ap, Bool, true, false, Option, some, List, [], ◌∷◌,
  length,
}
use rust_dns.Text.{Text, text, equal}
use rust_dns.State.{Action, LogRecord}

pub data DataType : Type 0 where
  timestamp utf8 uint32 : DataType

pub record Field : Type 0 where
  pub name : Text
  pub data_type : DataType
  pub nullable : Bool

unfoldable pub schema : List Field
schema =
    (record { name = text "ts"; data_type = timestamp; nullable = false })
    ∷ (record { name = text "client"; data_type = utf8; nullable = true })
    ∷ (record { name = text "domain"; data_type = utf8; nullable = false })
    ∷ (record { name = text "qtype"; data_type = utf8; nullable = false })
    ∷ (record { name = text "action"; data_type = utf8; nullable = false })
    ∷ (record { name = text "latency_ms"; data_type = uint32; nullable = false })
    ∷ []

-- A finished builder; none of the builders is given a null.
pub data Array : Type 0 where
  timestamps : List ℕ → Array
  strings : List Text → Array
  uint32s : List ℕ → Array

abbrev pub type_of : Array → DataType
type_of (timestamps a) = timestamp
type_of (strings a) = utf8
type_of (uint32s a) = uint32

abbrev pub len_of : Array → ℕ
len_of (timestamps a) = length a
len_of (strings a) = length a
len_of (uint32s a) = length a

-- As many columns as fields, each of its field's type, all of one length.
abbrev pub Fits : ℕ → List Field → List Array → Type 0
Fits n [] [] = Unit
Fits n [] (a ∷ cols) = ⊥
Fits n (f ∷ fs) [] = ⊥
Fits n (f ∷ fs) (a ∷ cols) = (type_of a ≡ f.data_type) × (len_of a ≡ n) × Fits n fs cols

-- Arrow's `RecordBatch`: fields and columns that fit them make a batch that has both.
pub record Arrow : Type 1 where
  pub RecordBatch : Type 0
  pub try_new : List Field → List Array → Option RecordBatch
  pub schema_of : RecordBatch → List Field
  pub columns : RecordBatch → List Array
  pub accepts :
      (n : ℕ) (fs : List Field) (cols : List Array)
      → Fits n fs cols
      → (b : RecordBatch) × (try_new fs cols ≡ some b) × (schema_of b ≡ fs) × (columns b ≡ cols)

-- The `&'static str` of a branch.
unfoldable pub action_text : Action → Text
action_text Action.blocked = text "blocked"
action_text Action.cached = text "cached"
action_text Action.forwarded = text "forwarded"
action_text Action.error = text "error"

-- The loop of `append_value`.
unfoldable pub arrays : List LogRecord → List Array
arrays recs =
    timestamps (map (λ r. r.ts_ms) recs)
    ∷ strings (map (λ r. r.client) recs)
    ∷ strings (map (λ r. r.domain) recs)
    ∷ strings (map (λ r. r.qtype) recs)
    ∷ strings (map (λ r. action_text r.action) recs)
    ∷ uint32s (map (λ r. r.latency_ms) recs)
    ∷ []

unfoldable pub build_batch : (a : Arrow) → List LogRecord → Option a.RecordBatch
build_batch a recs = a.try_new schema (arrays recs)

-- A row, as a query sees it.
pub record Row : Type 0 where
  pub ts : ℕ
  pub client : Text
  pub domain : Text
  pub qtype : Text
  pub action : Text
  pub latency_ms : ℕ

abbrev pub row_of : LogRecord → Row
row_of r = record {
  ts = r.ts_ms;
  client = r.client;
  domain = r.domain;
  qtype = r.qtype;
  action = action_text r.action;
  latency_ms = r.latency_ms;
}

-- The rows of six columns, up to the end of the shortest.
abbrev pub zip_rows : List ℕ → List Text → List Text → List Text → List Text → List ℕ → List Row
zip_rows (t ∷ ts) (c ∷ cs) (d ∷ ds) (q ∷ qs) (a ∷ cols) (l ∷ ls) =
    (record { ts = t; client = c; domain = d; qtype = q; action = a; latency_ms = l })
    ∷ zip_rows ts cs ds qs cols ls
zip_rows _ _ _ _ _ _ = []

-- The column of the first field of a name.
unfoldable pub column : Text → List Field → List Array → Option Array
column name (f ∷ fs) (a ∷ cols) =
    let rest = column name fs cols in if equal f.name name then some a else rest
column name _ _ = none

abbrev times : Option Array → List ℕ
times (some (timestamps ts)) = ts
times _ = []

abbrev texts : Option Array → List Text
texts (some (strings ss)) = ss
texts _ = []

abbrev counts : Option Array → List ℕ
counts (some (uint32s ns)) = ns
counts _ = []

-- The rows of a table, its columns taken by the names that `query` selects.
unfoldable pub rows : List Field → List Array → List Row
unfolding column
rows fs cols =
    zip_rows (times (column (text "ts") fs cols)) (texts (column (text "client") fs cols))
      (texts (column (text "domain") fs cols)) (texts (column (text "qtype") fs cols))
      (texts (column (text "action") fs cols)) (counts (column (text "latency_ms") fs cols))

pub length-map {ℓ κ} :
    {A : Type ℓ} {B : Type κ} (f : A → B) (xs : List A) → length (map f xs) ≡ length xs
length-map f [] = refl
length-map f (x ∷ xs) = ap suc (length-map f xs)

arrays-Fits : (recs : List LogRecord) → Fits (length recs) schema (arrays recs)
unfolding schema arrays
arrays-Fits recs = (
  refl,
  length-map _ recs,
  (
    refl,
    length-map _ recs,
    (
      refl,
      length-map _ recs,
      (refl, length-map _ recs, (refl, length-map _ recs, (refl, length-map _ recs, tt))),
    ),
  ),
)

zip_rows-map :
    (recs : List LogRecord)
    → zip_rows
        (map (λ r. r.ts_ms) recs)
        (map (λ r. r.client) recs)
        (map (λ r. r.domain) recs)
        (map (λ r. r.qtype) recs)
        (map (λ r. action_text r.action) recs)
        (map (λ r. r.latency_ms) recs)
      ≡ map row_of recs
zip_rows-map [] = refl
zip_rows-map (r ∷ recs) = ap (λ rs. row_of r ∷ rs) (zip_rows-map recs)

rows-arrays : (recs : List LogRecord) → rows schema (arrays recs) ≡ map row_of recs
unfolding rows schema arrays equal
rows-arrays recs = zip_rows-map recs

-- Every list of records becomes a batch, whose rows are the records in their order.
pub build_batch-rows :
    (a : Arrow) (recs : List LogRecord)
    → (b : a.RecordBatch) × (build_batch a recs ≡ some b)
      × (rows (a.schema_of b) (a.columns b) ≡ map row_of recs)
unfolding build_batch
build_batch-rows a recs =
    let (b, made, fields, same) = a.accepts (length recs) schema (arrays recs) (arrays-Fits recs) in
    (b, made, rw fields (rw same (rows-arrays recs)))
