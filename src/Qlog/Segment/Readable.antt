-- ===== src/Qlog/Segment/Readable.antt =====
-- A query finds no half-written segment.
use rust_dns.Base.{
  ℕ, ◌≡◌, inl, inr, refl, ◌∙◌, Bool, true, false, Option, none, some, List, [], ◌∷◌, ◌++◌,
  Bool-cases, Option-cases, All, ◌&&◌, max, is_empty,
}
use rust_dns.Qlog.Segment.{
  whole, other, not_created, not_whole, not_renamed, renamed, Content, Entry, put_file, remove_file,
  keep, write_file, write_segment, Meets, Ending, World, is_among, segment_writer,
}
use rust_dns.Batch.{Event}
use rust_dns.Text.{Text, equal, text}
use rust_dns.Qlog.Columns.{Arrow, build_batch}
use rust_dns.Qlog.{after_last_dot, is_parquet, extension, run_writer, File, segments}
use rust_dns.Qlog.Name.{segment_name, padded}
use rust_dns.State.{LogRecord}
use rust_dns.Config.{QlogConfig}
use rust_dns.Batch.Preserves.{run-preserves}

-- The last extension of a name that ends in it.
after_last_dot-append :
    (s e : Text) → after_last_dot e ≡ none → after_last_dot (s ++ (b'.' ∷ e)) ≡ some e
unfolding after_last_dot
after_last_dot-append [] e plain = rw (plain, after_last_dot) refl
after_last_dot-append (c ∷ s) e plain = rw (after_last_dot-append s e plain, after_last_dot) refl

-- Whether a query would read the file.
abbrev pub is_segment : Text → Bool
is_segment name = is_parquet (record { name = name; len = none })

dotted :
    (c : ℕ) (s e : Text)
    → after_last_dot e ≡ none
    → is_segment ((c ∷ s) ++ (b'.' ∷ e)) ≡ equal e (text "parquet")
unfolding is_parquet extension
dotted c s e plain = rw (after_last_dot-append s e plain, is_parquet, extension) refl

pub tmp_is_no_segment : (t s : ℕ) → is_segment (segment_name t s ++ text ".tmp") ≡ false
unfolding segment_name after_last_dot
tmp_is_no_segment t s =
    dotted b'q' (text "log-" ++ (padded 14 t ++ (text "-" ++ (padded 6 s ++ text ".parquet"))))
      (text "tmp") refl
    ∙ unfold equal in refl

after_last_dot_prefix :
    (p s e : Text) → after_last_dot s ≡ some e → after_last_dot (p ++ s) ≡ some e
unfolding after_last_dot
after_last_dot_prefix [] s e h = h
after_last_dot_prefix (c ∷ p) s e h = rw (after_last_dot_prefix p s e h, after_last_dot) refl

pub segment_name_is_read : (t s : ℕ) → is_segment (segment_name t s) ≡ true
unfolding segment_name is_parquet extension
segment_name_is_read t s =
    let ending : after_last_dot (text ".parquet") ≡ some (text "parquet") =
      unfold after_last_dot in refl in
    let number = after_last_dot_prefix (padded 6 s) _ _ ending in
    let time =
      after_last_dot_prefix (padded 14 t) _ _ (after_last_dot_prefix (text "-") _ _ number) in
    rw (after_last_dot_prefix (text "log-") _ _ time, is_parquet, extension) (unfold equal in refl)

module _ (a : Arrow) where
  abbrev pub IsWhole : Content a → Type 0
  IsWhole (whole b) = Unit
  IsWhole other = ⊥

  -- Every file that a query reads is a whole table.
  abbrev pub IsReadable : List (Entry a) → Type 0
  IsReadable dir = All (λ e. is_segment e.name ≡ true → IsWhole e.content) dir

  put_file-IsReadable :
      (name : Text) (c : Content a) (dir : List (Entry a))
      → (is_segment name ≡ true → IsWhole c)
      → IsReadable dir
      → IsReadable (put_file a name c dir)
  unfolding put_file
  put_file-IsReadable name c [] fits r = (fits, tt)
  put_file-IsReadable name c (e ∷ dir) fits (first, r) = elim (Bool-cases (equal e.name name)) [
    | inl same ↦ rw (same, put_file) (fits, r)
    | inr differs ↦ rw (differs, put_file) (first, put_file-IsReadable name c dir fits r)
  ]

  remove_file-IsReadable :
      (name : Text) (dir : List (Entry a)) → IsReadable dir → IsReadable (remove_file a name dir)
  unfolding remove_file
  remove_file-IsReadable name [] r = tt
  remove_file-IsReadable name (e ∷ dir) (first, r) = elim (Bool-cases (equal e.name name)) [
    | inl same ↦ rw (same, remove_file) (remove_file-IsReadable name dir r)
    | inr differs ↦ rw (differs, remove_file) (first, remove_file-IsReadable name dir r)
  ]

  keep-IsReadable :
      (len : Text → Option ℕ) (kept : List File) (dir : List (Entry a))
      → IsReadable dir
      → IsReadable (keep a len kept dir)
  unfolding keep
  keep-IsReadable len kept [] r = tt
  keep-IsReadable len kept (e ∷ dir) (first, r) =
      let rest = keep-IsReadable len kept dir r in
      elim (Bool-cases (is_empty (segments ((record { name = e.name; len = len e.name }) ∷ [])))) [
        | inl free ↦ rw (free, keep) (first, rest)
        | inr listed ↦ elim (Bool-cases (is_among a e.name kept)) [
          | inl stays ↦ rw (listed, keep) (rw stays (first, rest))
          | inr goes ↦ rw (listed, keep) (rw goes rest)
        ]
      ]

  -- Whatever the end of the writing is.
  write_file-IsReadable :
      (ending : Ending) (t s : ℕ) (b : a.RecordBatch) (dir : List (Entry a))
      → IsReadable dir
      → IsReadable (write_file a ending (segment_name t s) b dir).0
  unfolding write_file
  write_file-IsReadable not_created t s b dir r = r
  write_file-IsReadable not_whole t s b dir r =
      put_file-IsReadable _ other dir (λ e. cc (tmp_is_no_segment t s, e)) r
  write_file-IsReadable not_renamed t s b dir r = put_file-IsReadable _ (whole b) dir (λ e. tt) r
  write_file-IsReadable renamed t s b dir r =
      put_file-IsReadable _ (whole b) _ (λ e. tt) (remove_file-IsReadable _ dir r)

  write_segment-IsReadable :
      (o : Meets) (max_bytes : ℕ) (recs : List LogRecord) (w : World a)
      → IsReadable w.dir
      → IsReadable (write_segment a o max_bytes recs w).0.dir
  unfolding write_segment
  write_segment-IsReadable o max_bytes recs w r = elim (Option-cases (build_batch a recs)) [
    | inl refused ↦ rw (refused, write_segment) r
    | inr (b, built) ↦
        let written = write_file a o.ending (segment_name o.now_ms w.seq) b w.dir in
        let readable = write_file-IsReadable o.ending o.now_ms w.seq b w.dir r in
        elim (Bool-cases (written.1 && o.lists)) [
          | inl listed ↦
              rw (built, write_segment) (rw listed (keep-IsReadable o.len _ written.0 readable))
          | inr failed ↦ rw (built, write_segment) (rw failed readable)
        ]
  ]

  -- Whatever arrives, and however each writing of a segment ends, also with the end of the process in
  -- between, every file that a query reads is a whole table, if it was so before.
  pub run_writer-IsReadable :
      (meets : ℕ → Meets) (created : Bool) (cfg : QlogConfig) (w : World a)
      (es : List (Event LogRecord))
      → IsReadable w.dir
      → IsReadable (run_writer (segment_writer a meets cfg.max_bytes) created cfg w es).dir
  unfolding run_writer
  run_writer-IsReadable meets true cfg w es r =
      run-preserves (segment_writer a meets cfg.max_bytes) (max cfg.flush_rows 1)
        (λ w. IsReadable w.dir)
        (λ recs w r. write_segment-IsReadable (meets w.seq) cfg.max_bytes recs w r) es _ r
  run_writer-IsReadable meets false cfg w es r = r
