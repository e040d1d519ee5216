-- ===== src/Qlog.antt =====
-- src/qlog.rs: the writer of the query log and the cap on its size; the children have the tables, the
-- names and the writing of segments, and the query.
pub mod Sorted
pub mod Retention
pub mod Columns
pub mod Query
pub mod Segment
pub mod Name
mod Tests
use rust_dns.Batch.{run, Event}
use rust_dns.Base.{
  ◌-◌, ◌||◌, max, ℕ, zero, suc, ◌+◌, ◌*◌, ◌/◌, ◌%◌, ◌^◌, ◌≡◌, ◌≤◌, ◌<◌, ◌⊎◌, inl, inr, refl, sym,
  ap, ◌∙◌, Bool, true, false, Option, none, some, List, [], ◌∷◌, ◌++◌, length, take, drop, first?,
  arith, Bool-cases, Option-cases, some-inj, if◌then◌else◌, ◌==◌, ltb, leb, In, here, there, All,
  ◌&&◌, map,
}
use rust_dns.Result.{Result, ok, err, panic}
use rust_dns.Text.{Text, equal, le_text, text}
use rust_dns.State.{LogRecord}
use rust_dns.Config.{QlogConfig}

-- An entry of the directory: its name, and its length if the metadata can be read.
pub record DirEntry : Type 0 where
  pub name : Text
  pub len : Option ℕ

pub record File : Type 0 where
  pub name : Text
  pub size : ℕ

-- What follows the last dot.
unfoldable pub after_last_dot : Text → Option Text
after_last_dot [] = none
after_last_dot (c ∷ s) = elim (after_last_dot s) [
  | some e ↦ some e
  | none ↦ if c == b'.' then some s else none
]

-- `Path::extension`: a dot at the start of the name does not count.
unfoldable pub extension : Text → Option Text
extension [] = none
extension (c ∷ s) = after_last_dot s

unfoldable pub is_parquet : DirEntry → Bool
is_parquet e = elim (extension e.name) [ none ↦ false | some x ↦ equal x (text "parquet") ]

unfoldable pub has_segments : Option (List DirEntry) → Bool
has_segments none = false
has_segments (some []) = false
has_segments (some (e ∷ es)) = is_parquet e || has_segments (some es)

-- The segments with their lengths; `filter` and `filter_map`.
unfoldable pub segments : List DirEntry → List File
segments [] = []
segments (e ∷ es) =
    let rest = segments es in
    if is_parquet e
    then elim e.len [ none ↦ rest | some n ↦ (record { name = e.name; size = n }) ∷ rest ]
    else rest

-- `sort_by` on the names.
unfoldable pub insert_file : File → List File → List File
insert_file f [] = f ∷ []
insert_file f (g ∷ gs) =
    let rest = insert_file f gs in if le_text f.name g.name then f ∷ g ∷ gs else g ∷ rest

unfoldable pub sort_files : List File → List File
sort_files [] = []
sort_files (f ∷ fs) = insert_file f (sort_files fs)

-- `sum` on `u64`.
unfoldable pub total : List File → ℕ
total [] = 0
total (f ∷ fs) = (f.size + total fs) % 2 ^ 64

-- The loop over the files, oldest first; `remove` says which can be deleted. What is left is returned.
unfoldable pub retain : ℕ → (Text → Bool) → ℕ → List File → List File
retain max_bytes remove sum [] = []
retain max_bytes remove sum (f ∷ fs) =
    let smaller = retain max_bytes remove ((sum + (2 ^ 64 - f.size)) % 2 ^ 64) fs in
    let same = retain max_bytes remove sum fs in
    if leb sum max_bytes then f ∷ fs else if remove f.name then smaller else f ∷ same

unfoldable pub enforce_retention : ℕ → (Text → Bool) → List DirEntry → List File
enforce_retention max_bytes remove dir =
    let files = sort_files (segments dir) in retain max_bytes remove (total files) files

-- `write` is what `write_segment` makes of the world, `created` whether the directory could be made.
unfoldable pub run_writer :
    {W : Type 0} → (List LogRecord → W → W) → Bool → QlogConfig → W → List (Event LogRecord) → W
run_writer write created cfg w es =
    if created
    then (run write (max cfg.flush_rows 1) (record { world = w; buf = [] }) es).world
    else w
