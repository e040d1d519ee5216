-- ===== src/Qlog/Segment/Stored.antt =====
-- What a query finds in the directory after a segment was written.
use rust_dns.Base.{
  ℕ, ◌≡◌, inl, inr, refl, sym, ap, ◌∙◌, Bool, true, false, Option, some, List, [], ◌∷◌, ◌++◌, arith,
  Bool-cases, Option-cases, some-inj, if◌then◌else◌, leb, In, here, there, All, map, append-nil,
  not-In-nil, append_assoc, is_empty, ◌||◌, All-of_In,
}
use mathlib.Core.Path.{subst}
use rust_dns.Qlog.Segment.{
  whole, other, renamed, Content, Entry, put_file, remove_file, keep, Meets, is_among, listing,
  retained, write_segment, World, write_file,
}
use rust_dns.Qlog.{
  enforce_retention, insert_file, sort_files, retain, segments, File, DirEntry, is_parquet, total,
}
use rust_dns.Qlog.Columns.{Arrow, Row, rows, build_batch, row_of, build_batch-rows}
use rust_dns.Text.{Text, equal, equal_iff, le_text, equal_refl, text}
use rust_dns.Qlog.Segment.Readable.{is_segment, tmp_is_no_segment, segment_name_is_read}
use rust_dns.State.{LogRecord}
use rust_dns.Qlog.Name.{segment_name}

is_among-insert_file :
    (a : Arrow) (name : Text) (f : File) (fs : List File)
    → (equal f.name name || is_among a name fs) ≡ true
    → is_among a name (insert_file f fs) ≡ true
unfolding insert_file
is_among-insert_file a name f [] h = h
is_among-insert_file a name f (g ∷ fs) h = elim (Bool-cases (le_text f.name g.name)) [
  | inl before ↦ rw (before, insert_file) h
  | inr after ↦ rw (after, insert_file) (ground (arith, h, is_among-insert_file a name f fs))
]

is_among-sort_files :
    (a : Arrow) (name : Text) (fs : List File)
    → is_among a name fs ≡ true
    → is_among a name (sort_files fs) ≡ true
unfolding sort_files
is_among-sort_files a name [] h = h
is_among-sort_files a name (f ∷ fs) h =
    is_among-insert_file a name f (sort_files fs) (ground (arith, h, is_among-sort_files a name fs))

retain-within :
    (max_bytes : ℕ) (remove : Text → Bool) (sum : ℕ) (fs : List File)
    → leb sum max_bytes ≡ true
    → retain max_bytes remove sum fs ≡ fs
unfolding retain
retain-within max_bytes remove sum [] h = refl
retain-within max_bytes remove sum (f ∷ fs) h = rw (h, retain) refl

-- Nothing is deleted while the sum is within the cap.
enforce_retention-within :
    (max_bytes : ℕ) (remove : Text → Bool) (dir : List DirEntry)
    → leb (total (sort_files (segments dir))) max_bytes ≡ true
    → enforce_retention max_bytes remove dir ≡ sort_files (segments dir)
unfolding enforce_retention
enforce_retention-within max_bytes remove dir h =
    retain-within max_bytes remove (total (sort_files (segments dir))) (sort_files (segments dir)) h

module _ (a : Arrow) where
  abbrev content_rows : Content a → List Row
  content_rows (whole b) = rows (a.schema_of b) (a.columns b)
  content_rows other = []

  abbrev entry_rows : Entry a → List Row
  entry_rows e = if is_segment e.name then content_rows e.content else []

  -- The rows that a query reads, file by file.
  abbrev pub stored_rows : List (Entry a) → List Row
  stored_rows [] = []
  stored_rows (e ∷ dir) = entry_rows e ++ stored_rows dir

  stored_rows-append :
      (dir more : List (Entry a)) → stored_rows (dir ++ more) ≡ stored_rows dir ++ stored_rows more
  stored_rows-append [] more = refl
  stored_rows-append (e ∷ dir) more =
      ap (λ rs. entry_rows e ++ rs) (stored_rows-append dir more)
      ∙ sym (append_assoc (entry_rows e) (stored_rows dir) (stored_rows more))

  -- No file has the name.
  abbrev pub IsFresh : Text → List (Entry a) → Type 0
  IsFresh name dir = All (λ e. equal e.name name ≡ false) dir

  put_file_fresh :
      (name : Text) (c : Content a) (dir : List (Entry a))
      → IsFresh name dir
      → put_file a name c dir ≡ dir ++ ((record { name = name; content = c }) ∷ [])
  unfolding put_file
  put_file_fresh name c [] f = refl
  put_file_fresh name c (e ∷ dir) (differs, f) =
      rw (differs, put_file) (ap (λ d. e ∷ d) (put_file_fresh name c dir f))

  remove_file-IsFresh :
      (tmp name : Text) (dir : List (Entry a))
      → IsFresh name dir
      → IsFresh name (remove_file a tmp dir)
  unfolding remove_file
  remove_file-IsFresh tmp name [] f = tt
  remove_file-IsFresh tmp name (e ∷ dir) (differs, f) = elim (Bool-cases (equal e.name tmp)) [
    | inl same ↦ rw (same, remove_file) (remove_file-IsFresh tmp name dir f)
    | inr other_name ↦ rw (other_name, remove_file) (differs, remove_file-IsFresh tmp name dir f)
  ]

  remove_file-stored_rows :
      (tmp : Text) (dir : List (Entry a))
      → is_segment tmp ≡ false
      → stored_rows (remove_file a tmp dir) ≡ stored_rows dir
  unfolding remove_file
  remove_file-stored_rows tmp [] unread = refl
  remove_file-stored_rows tmp (e ∷ dir) unread =
      let rest = remove_file-stored_rows tmp dir unread in
      elim (Bool-cases (equal e.name tmp)) [
        | inl same ↦
            let named : e.name ≡ tmp = (equal_iff e.name tmp).0 same in
            rw (same, remove_file) (rw (named, unread) rest)
        | inr other_name ↦ rw (other_name, remove_file) (ap (λ rs. entry_rows e ++ rs) rest)
      ]

  is_among-listing :
      (len : Text → Option ℕ) (e : Entry a) (dir : List (Entry a))
      → In e dir
      → is_empty (segments ((record { name = e.name; len = len e.name }) ∷ [])) ≡ false
      → is_among a e.name (segments (listing a len dir)) ≡ true
  unfolding segments
  is_among-listing len e [] i listed = absurd (not-In-nil i)
  is_among-listing len e (d ∷ dir) (here same) listed =
      let l : DirEntry = record { name = d.name; len = len d.name } in
      let listed' : is_empty (segments (l ∷ [])) ≡ false =
        subst (λ x. is_empty (segments ((record { name = x.name; len = len x.name }) ∷ [])) ≡ false)
          same listed in
      elim (Bool-cases (is_parquet l)) [
        | inr unread ↦ absurd (ground (arith, unread, listed'))
        | inl read ↦ elim (Option-cases (len d.name)) [
          | inl unknown ↦ absurd (ground (arith, read, unknown, listed'))
          | inr (n, known) ↦ rw (same, read, segments) (rw known (rw (equal_refl d.name) refl))
        ]
      ]
  is_among-listing len e (d ∷ dir) (there i) listed =
      let l : DirEntry = record { name = d.name; len = len d.name } in
      let rest = is_among-listing len e dir i listed in
      elim (Bool-cases (is_parquet l)) [
        | inr unread ↦ rw (unread, segments) rest
        | inl read ↦ elim (Option-cases (len d.name)) [
          | inl unknown ↦ rw (read, segments) (rw unknown rest)
          | inr (n, known) ↦ rw (read, segments) (rw known (ground (arith, rest)))
        ]
      ]

  keep_all :
      (len : Text → Option ℕ) (kept : List File) (dir : List (Entry a))
      → All
          (λ e.
            is_empty (segments ((record { name = e.name; len = len e.name }) ∷ [])) ≡ false
            → is_among a e.name kept ≡ true)
          dir
      → keep a len kept dir ≡ dir
  unfolding keep
  keep_all len kept [] k = refl
  keep_all len kept (e ∷ dir) (here_kept, k) =
      let rest = ap (λ d. e ∷ d) (keep_all len kept dir k) in
      elim (Bool-cases (is_empty (segments ((record { name = e.name; len = len e.name }) ∷ [])))) [
        | inl free ↦ rw (free, keep) rest
        | inr listed ↦ rw (listed, here_kept listed, keep) rest
      ]

  retained_all :
      (max_bytes : ℕ) (o : Meets) (dir : List (Entry a))
      → leb (total (sort_files (segments (listing a o.len dir)))) max_bytes ≡ true
      → retained a max_bytes o dir ≡ dir
  retained_all max_bytes o dir h =
      rw (enforce_retention-within max_bytes o.remove (listing a o.len dir) h) (
        keep_all o.len _ dir (
          All-of_In dir
            (λ e i listed. is_among-sort_files a e.name _ (is_among-listing o.len e dir i listed))))

  stored_in_new :
      (name : Text) (b : a.RecordBatch) (recs : List LogRecord) (dir : List (Entry a))
      → build_batch a recs ≡ some b
      → is_segment name ≡ true
      → IsFresh name dir
      → stored_rows (put_file a name (whole b) dir) ≡ stored_rows dir ++ map row_of recs
  stored_in_new name b recs dir built read fresh =
      let (b', built', read_back) = build_batch-rows a recs in
      let same : b' ≡ b = some-inj (sym built' ∙ built) in
      let e : Entry a = record { name = name; content = whole b } in
      let table : stored_rows (e ∷ []) ≡ map row_of recs =
        rw read (append-nil (rows (a.schema_of b) (a.columns b)) ∙ rw same at read_back) in
      ap stored_rows (put_file_fresh name (whole b) dir fresh)
      ∙ stored_rows-append dir (e ∷ [])
      ∙ ap (λ rs. stored_rows dir ++ rs) table

  -- A segment that is written whole, under a name that no file has, and with the sum of the sizes
  -- within the cap: the writing succeeds, and a query that takes the columns by their names finds the
  -- rows of before, then the records.
  pub write_segment-stores :
      (o : Meets) (max_bytes : ℕ) (recs : List LogRecord) (w : World a) (b : a.RecordBatch)
      → o.ending ≡ renamed
      → o.lists ≡ true
      → build_batch a recs ≡ some b
      → IsFresh (segment_name o.now_ms w.seq) w.dir
      → leb
          (total (
            sort_files (
              segments
                (listing a o.len (write_file a renamed (segment_name o.now_ms w.seq) b w.dir).0))))
          max_bytes
        ≡ true
      → ((write_segment a o max_bytes recs w).1 ≡ true)
        × (stored_rows (write_segment a o max_bytes recs w).0.dir
            ≡ stored_rows w.dir ++ map row_of recs)
  unfolding write_segment write_file
  write_segment-stores o max_bytes recs w b ends lists built fresh within =
      let name = segment_name o.now_ms w.seq in
      let dir = (write_file a renamed name b w.dir).0 in
      let tmp = name ++ text ".tmp" in
      let before = remove_file a tmp w.dir in
      let kept : stored_rows before ≡ stored_rows w.dir =
        remove_file-stored_rows tmp w.dir (tmp_is_no_segment o.now_ms w.seq) in
      let found =
        stored_in_new name b recs before built (segment_name_is_read o.now_ms w.seq)
          (remove_file-IsFresh tmp name w.dir fresh)
        ∙ ap (λ rs. rs ++ map row_of recs) kept in
      let all = retained_all max_bytes o dir within in
      rw (built, write_segment) (rw ends (rw lists (refl, rw all found)))
