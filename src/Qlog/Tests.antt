-- ===== src/Qlog/Tests.antt =====
-- The cap on the log's size at a concrete directory.
use rust_dns.Qlog.Name.{digits}
use rust_dns.Qlog.Name.{digits}
use rust_dns.Qlog.{
  total, insert_file, after_last_dot, is_parquet, retain, DirEntry, enforce_retention, extension,
  sort_files, segments, has_segments, run_writer,
}
use rust_dns.Text.{le_text, Text, text, equal}
use rust_dns.Batch.{record_in, closed}
use rust_dns.Qlog.Segment.{
  renamed, not_whole, Meets, World, listing, write_segment, write_file, segment_writer,
}
use rust_dns.State.{Action, LogRecord}
use rust_dns.Base.{
  if◌then◌else◌, ◌==◌, leb, List, not, ℕ, ◌^◌, ◌≡◌, ◌<◌, refl, true, none, some, [], ◌∷◌, arith,
}
use rust_dns.Qlog.Sorted.{bytes}
use rust_dns.Qlog.Retention.{KeepsNewest, enforce_retention-KeepsNewest}
use rust_dns.Qlog.Columns.{schema, Field, Arrow, build_batch, Array, arrays, row_of}
use rust_dns.Qlog.Name.{segment_name, padded, le_text-segment_name, decimal}
use rust_dns.Qlog.Query.{query}
use rust_dns.Config.{default_qlog}
use rust_dns.Qlog.Segment.Readable.{IsReadable, run_writer-IsReadable}
use rust_dns.Qlog.Segment.Stored.{stored_rows, write_segment-stores}

abbrev segment : Text → ℕ → DirEntry
segment name n = record { name = name; len = some n }

-- Two segments, one half-written file, and one entry without metadata.
abbrev dir : List DirEntry
dir =
    segment (text "q2.parquet") 60
    ∷ segment (text "q1.parquet") 50
    ∷ segment (text "q3.parquet.tmp") 900
    ∷ (record { name = text "q4.parquet"; len = none })
    ∷ []

deletes_oldest :
    enforce_retention 100 (λ name. true) dir ≡ (record { name = text "q2.parquet"; size = 60 }) ∷ []
unfolding enforce_retention retain sort_files segments is_parquet extension after_last_dot equal
    insert_file le_text total
deletes_oldest = refl

-- A file that cannot be deleted is passed over.
passes_over :
    enforce_retention 100 (λ name. not (equal name (text "q1.parquet"))) dir
    ≡ (record { name = text "q1.parquet"; size = 50 }) ∷ []
unfolding enforce_retention retain sort_files segments is_parquet extension after_last_dot equal
    insert_file le_text total
passes_over = refl

hidden : extension (text ".parquet") ≡ none
unfolding extension after_last_dot
hidden = refl

all_bytes : bytes (segments dir) ≡ 110
unfolding bytes segments is_parquet extension after_last_dot equal
all_bytes = refl

small : bytes (segments dir) < 2 ^ 64
small = rw all_bytes (omega arith)

enforce_retention-KeepsNewest_example :
    KeepsNewest 100 (segments dir) (enforce_retention 100 (λ name. true) dir)
enforce_retention-KeepsNewest_example = enforce_retention-KeepsNewest 100 dir small

-- A table that is its fields and columns.
abbrev toy_arrow : Arrow
toy_arrow = record {
  RecordBatch = List Field × List Array;
  try_new = λ fs cols. some (fs, cols);
  schema_of = λ b. b.0;
  columns = λ b. b.1;
  accepts = λ n fs cols fits. ((fs, cols), refl, refl, refl);
}

abbrev asked : LogRecord
asked = record {
  ts_ms = 1_000_000;
  client = [];
  domain = text "a.example";
  qtype = text "A";
  action = Action.forwarded;
  latency_ms = 3;
}

abbrev smooth : Meets
smooth = record {
  now_ms = 1_000_000;
  ending = renamed;
  lists = true;
  len = λ name. some 100;
  remove = λ name. true;
}

-- The second segment is cut short.
abbrev second_cut : ℕ → Meets
second_cut n = if n == 0 then smooth else record smooth { ending = not_whole }

abbrev none_yet : World toy_arrow
none_yet = record { dir = []; seq = 0 }

named : segment_name 1_000_000 7 ≡ text "qlog-00000001000000-000007.parquet"
unfolding segment_name padded decimal digits
named = refl

built : build_batch toy_arrow (asked ∷ []) ≡ some (schema, arrays (asked ∷ []))
unfolding build_batch
built = refl

asks_datafusion :
    query (λ mem sql. some sql) (some dir) 64 [] 200
    ≡ some (
        text
          "SELECT CAST(ts AS VARCHAR) AS ts, client, domain, qtype, action, latency_ms FROM logs  ORDER BY ts DESC LIMIT 200")
unfolding query has_segments is_parquet extension after_last_dot equal digits
asks_datafusion = refl

le_text-segment_name_example : le_text (segment_name 999 999_999) (segment_name 1_000 0) ≡ true
le_text-segment_name_example =
    le_text-segment_name 999 999_999 1_000 0 (omega arith) (omega arith) (omega arith) (omega arith)

run_writer-IsReadable_example :
    IsReadable toy_arrow
      (run_writer
        (segment_writer toy_arrow second_cut default_qlog.max_bytes)
        true
        (record default_qlog { flush_rows = 1 })
        none_yet
        (record_in asked ∷ record_in asked ∷ closed ∷ [])).dir
run_writer-IsReadable_example =
    run_writer-IsReadable toy_arrow second_cut true (record default_qlog { flush_rows = 1 })
      none_yet (record_in asked ∷ record_in asked ∷ closed ∷ []) tt

room :
    leb
      (total (
        sort_files (
          segments (
            listing toy_arrow smooth.len
              (write_file toy_arrow renamed
                (segment_name 1_000_000 0)
                (schema, arrays (asked ∷ []))
                []).0))))
      1_000
    ≡ true
unfolding total sort_files segments write_file is_parquet extension segment_name after_last_dot
    padded decimal digits equal insert_file
room = refl

write_segment-stores_example :
    ((write_segment toy_arrow smooth 1_000 (asked ∷ []) none_yet).1 ≡ true)
    × (stored_rows toy_arrow (write_segment toy_arrow smooth 1_000 (asked ∷ []) none_yet).0.dir
        ≡ row_of asked ∷ [])
write_segment-stores_example =
    write_segment-stores toy_arrow smooth 1_000 (asked ∷ []) none_yet (schema, arrays (asked ∷ []))
      refl refl built tt room
