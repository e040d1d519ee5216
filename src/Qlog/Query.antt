-- ===== src/Qlog/Query.antt =====
-- src/qlog.rs: `query`. What DataFusion answers for a memory limit and a statement is a parameter.
use rust_dns.Base.{max, not, ℕ, ◌*◌, ◌%◌, ◌^◌, Option, some, List, ◌++◌, if◌then◌else◌}
use rust_dns.Qlog.Name.{decimal}
use rust_dns.Text.{Text, text}
use rust_dns.Qlog.{DirEntry, has_segments}

-- `(mem_limit_mb.max(16) as usize) * 1024 * 1024`.
unfoldable pub memory_limit : ℕ → ℕ
memory_limit mem_limit_mb = max mem_limit_mb 16 * 1024 * 1024 % 2 ^ 64

unfoldable pub statement : Text → ℕ → Text
unfolding decimal
statement where_sql limit =
    text "SELECT CAST(ts AS VARCHAR) AS ts, client, domain, qtype, action, latency_ms FROM logs "
    ++ (where_sql ++ (text " ORDER BY ts DESC LIMIT " ++ decimal limit))

-- `dir` is what the directory lists, if it can be read; `run` answers with the rows as JSON.
unfoldable pub query :
    (ℕ → Text → Option Text) → Option (List DirEntry) → ℕ → Text → ℕ → Option Text
unfolding memory_limit statement
query run dir mem_limit_mb where_sql limit =
    if not (has_segments dir)
    then some (text "[]")
    else run (memory_limit mem_limit_mb) (statement where_sql limit)
