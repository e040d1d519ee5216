-- ===== src/Lib.antt =====
-- Verification of rust-dns, a DNS server that blocks domains, caches answers and forwards the rest.
--
-- A packet reaches `handle` (Dns) through a listener (Dns.Listen). `handle` asks the blocklist
-- (Blocklist), then the RAM cache (State.Moka), and on a miss the upstream resolvers (Upstream). What
-- an upstream answers goes into the RAM cache and, over a bounded channel, to a writer (Batch,
-- Cache.Writer) that commits it to a redb table (Cache.Store), from which the RAM cache is filled at
-- the next start. Counters (Stats) and the query log's channel are fed on the way.
--
-- The files and the code:
--   Base, Base.Lists, Bytes   shared names, lists over the native numbers, big-endian bytes
--   Text and its children     `str` and `String`: code points, trimming, searching, lines, order, UTF-8
--   Result                    `anyhow::Result` and panics
--   Blocklist                 src/blocklist.rs; the hash sets are lists without repetition
--   Batch                     the loop that the `run_writer` of src/cache.rs and of src/qlog.rs share
--   Cache                     src/cache.rs: keys, values and their bytes
--   Cache.Redb                redb's table, a parameter
--   Cache.Store               `Store::open`, `write_batch`, `read_all_valid`, `purge_expired`
--   Cache.Writer              `run_writer` and `flush` of src/cache.rs
--   Hickory                   the messages of hickory_proto and its codec, a parameter
--   Upstream                  src/upstream.rs; the sockets are a parameter, `Net`
--   Config                    src/config.rs: the configuration and its defaults
--   Config.Atomic             `load_or_create`, `save` and `write_atomic` of src/config.rs
--   Stats                     src/stats.rs
--   State                     src/state.rs; moka is a parameter, `Moka`
--   Dns                       `handle` and the replies that it builds, src/dns.rs
--   Dns.Listen                `udp_worker` and `worker_count` of src/dns.rs
--   Dns.Tcp                   `tcp_conn` of src/dns.rs
--   Qlog                      `run_writer`, `enforce_retention` and `has_segments` of src/qlog.rs
--   Web                       the handlers of src/web.rs
--   Boot                      the state that src/main.rs starts with, and its token
--   Dns.Server                `handle` in two parts, and the whole process as steps in any order
--   Dns.Sockets               `spawn_udp`, `reuseport_udp` and the accept loop of `spawn_tcp`
--   Qlog.Name, Qlog.Columns   the names of segments, and their tables; Arrow is a parameter
--   Qlog.Segment, Qlog.Query  `write_segment` and `query` of src/qlog.rs; DataFusion is a parameter
--   Web.Router                `serve` of src/web.rs: the routes behind the token gate
--   Boot.Main                 `main` of src/main.rs up to the wait for the end; Boot.Purge its purging task
--   Boot.Life, Boot.Restart   the process from a start on, and what the next start finds
--
-- Operations keep the names of the code. A function that awaits becomes one that takes what it meets
-- outside the process as an argument: `Env` holds the network, the clock, and what other tasks do to
-- the cache while a query waits. The process is a relation, `Advances` of Dns.Server.Steps, whose steps
-- come in any order; Dns.Listen has the UDP listener alone. Machine integers are natural numbers with
-- their wrap-around written out. The loop over a name's ancestors runs on fuel, the length of the name,
-- which each round shortens; that it is enough is part of the proof of Blocklist.Match. The loop over a connection's messages runs on the length of its
-- input, of which each round takes two bytes; Dns.Tcp.Fuel proves that more rounds change nothing. A
-- number is printed on fuel for the 20 digits of 64 bits, and the word `Bearer` stripped on the length
-- of the text, which each round shortens. All other loops are structural.
--
-- Unicode's case tables, redb, moka, hickory_proto, the TOML codec and the sockets are parameters with
-- the documented facts that the code relies on; the tests instantiate each with a concrete one.
--
-- Not modelled: log messages, the bytes of Parquet files, how DataFusion runs a statement, JSON
-- and HTTP below the routes, and tracing and the wait for ctrl-c in src/main.rs, which are
-- libraries or glue around them. Two updates of the configuration by the web API are taken as one
-- after the other, and a task's way from its first line to the upstream load as one step.
pub mod Base
pub mod Bytes
pub mod Text
pub mod Batch
pub mod Blocklist
pub mod Cache
pub mod Result
pub mod Hickory
pub mod Upstream
pub mod Config
pub mod Stats
pub mod State
pub mod Dns
pub mod Qlog
pub mod Web
pub mod Boot
