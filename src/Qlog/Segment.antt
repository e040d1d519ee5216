-- ===== src/Qlog/Segment.antt =====
-- src/qlog.rs: the writing of one segment, in a directory whose files can be seen by a query at any
-- time, also after the process has ended in between.
pub mod Readable
pub mod Stored
use rust_dns.Base.{
  map, is_empty, ◌||◌, ℕ, zero, suc, ◌+◌, ◌*◌, ◌/◌, ◌%◌, ◌^◌, ◌≡◌, ◌≤◌, ◌<◌, ◌⊎◌, inl, inr, refl,
  sym, ap, ◌∙◌, Bool, true, false, Option, none, some, List, [], ◌∷◌, ◌++◌, length, take, drop,
  first?, arith, Bool-cases, Option-cases, some-inj, if◌then◌else◌, ◌==◌, ltb, leb, In, here, there,
  All, ◌&&◌,
}
use rust_dns.Result.{Result, ok, err, panic}
use rust_dns.Qlog.Columns.{Arrow, build_batch}
use rust_dns.Text.{Text, equal, text}
use rust_dns.Qlog.{DirEntry, File, enforce_retention, segments}
use rust_dns.State.{LogRecord}
use rust_dns.Qlog.Name.{segment_name}

module _ (a : Arrow) where
  -- What stands in a file: a whole table, or anything else, such as a part of one.
  pub data Content : Type 0 where
    whole : a.RecordBatch → Content
    other : Content

  pub record Entry : Type 0 where
    pub name : Text
    pub content : Content

  unfoldable pub put_file : Text → Content → List Entry → List Entry
  put_file name c [] = (record { name = name; content = c }) ∷ []
  put_file name c (e ∷ dir) =
      let rest = put_file name c dir in
      if equal e.name name then (record { name = name; content = c }) ∷ dir else e ∷ rest

  unfoldable pub remove_file : Text → List Entry → List Entry
  remove_file name [] = []
  remove_file name (e ∷ dir) =
      let rest = remove_file name dir in if equal e.name name then rest else e ∷ rest

  -- The directory, and `SEQ`.
  pub record World : Type 0 where
    pub dir : List Entry
    pub seq : ℕ

-- How far the writing of a file comes, before an error or the end of the process: it is not made, it
-- is not whole, it is not renamed, or it is.
pub data Ending : Type 0 where
  not_created not_whole not_renamed renamed : Ending

-- What the writing of a segment meets: the clock, its end, whether the directory can be listed, the
-- lengths of files where their metadata can be read, and which files can be deleted.
pub record Meets : Type 0 where
  pub now_ms : ℕ
  pub ending : Ending
  pub lists : Bool
  pub len : Text → Option ℕ
  pub remove : Text → Bool

module _ (a : Arrow) where
  -- The temporary file, and its renaming; `true` if all went well.
  unfoldable pub write_file : Ending → Text → a.RecordBatch → List (Entry a) → List (Entry a) × Bool
  unfolding put_file remove_file
  write_file not_created name b dir = (dir, false)
  write_file not_whole name b dir = (put_file a (name ++ text ".tmp") other dir, false)
  write_file not_renamed name b dir = (put_file a (name ++ text ".tmp") (whole b) dir, false)
  write_file renamed name b dir =
      (put_file a name (whole b) (remove_file a (name ++ text ".tmp") dir), true)

  abbrev pub listing : (Text → Option ℕ) → List (Entry a) → List DirEntry
  listing len dir = map (λ e. record { name = e.name; len = len e.name }) dir

  abbrev pub is_among : Text → List File → Bool
  is_among name [] = false
  is_among name (f ∷ fs) = equal f.name name || is_among name fs

  -- The files that are no segments whose length is known, and the segments that are kept.
  unfoldable pub keep : (Text → Option ℕ) → List File → List (Entry a) → List (Entry a)
  keep len kept [] = []
  keep len kept (e ∷ dir) =
      let rest = keep len kept dir in
      if is_empty (segments ((record { name = e.name; len = len e.name }) ∷ []))
      then e ∷ rest
      else if is_among e.name kept
      then e ∷ rest
      else rest

  -- The directory after `enforce_retention`.
  abbrev pub retained : ℕ → Meets → List (Entry a) → List (Entry a)
  retained max_bytes o dir =
      keep o.len (enforce_retention max_bytes o.remove (listing o.len dir)) dir

  unfoldable pub write_segment : Meets → ℕ → List LogRecord → World a → World a × Bool
  unfolding write_file keep
  write_segment o max_bytes recs w = elim (build_batch a recs) [
    | none ↦ (w, false)
    | some b ↦
        let (dir, good) = write_file o.ending (segment_name o.now_ms w.seq) b w.dir in
        let seq = (w.seq + 1) % 2 ^ 64 in
        if good && o.lists
        then (record { dir = retained max_bytes o dir; seq = seq }, true)
        else (record { dir = dir; seq = seq }, false)
  ]

  -- The loop of `run_writer` on these segments; `meets n` is what the segment with number `n` meets.
  abbrev pub segment_writer : (ℕ → Meets) → ℕ → List LogRecord → World a → World a
  segment_writer meets max_bytes recs w = (write_segment (meets w.seq) max_bytes recs w).0
