-- ===== src/Dns/Server.antt =====
-- src/dns.rs and src/main.rs: the process while it runs. A query is handled in two parts, up to the
-- load of a missing entry and from its end, so that the steps of other tasks can come in between:
-- of other queries on both listeners, of requests to src/web.rs, and of the two writers.
pub mod Whole
pub mod Effects
pub mod Steps
pub mod Tasks
pub mod Invariant
pub mod Sent
pub mod Askers
pub mod Steady
pub mod Queued
pub mod Checked
pub mod Kept
pub mod Authority
pub mod Reuse
pub mod Drains
use rust_dns.Base.{
  ℕ, zero, suc, ◌+◌, ◌*◌, ◌/◌, ◌%◌, ◌^◌, ◌≡◌, ◌≤◌, ◌<◌, ◌⊎◌, inl, inr, refl, sym, ap, ◌∙◌, Bool,
  true, false, Option, none, some, List, [], ◌∷◌, ◌++◌, length, take, drop, first?, arith,
  Bool-cases, Option-cases, some-inj, if◌then◌else◌, ◌==◌, ltb, leb, In, here, there, All, ◌&&◌,
  map,
}
use rust_dns.Result.{Result, ok, err, panic}
use rust_dns.Bytes.{Bytes}
use rust_dns.Text.Unicode.{Unicode}
use rust_dns.Text.{Text}
use rust_dns.Hickory.{Hickory, Message, Query}
use rust_dns.State.{Moka, AppState, Loaded}
use rust_dns.Config.{Config}
use rust_dns.Dns.{
  log_with, count_query, Env, finish_load, Served, serve_blocked, serve_cached, after_load, key_of,
  query_name,
}
use rust_dns.Upstream.{Upstream, resolve}
use rust_dns.Blocklist.{is_blocked}

-- What a query keeps while its entry is loaded: the configuration and the upstream that it saw.
pub record Load (Name : Type 0) : Type 0 where
  pub wire : Bytes
  pub client : Option Text
  pub request : Message Name
  pub query : Query Name
  pub config : Config
  pub upstream : Upstream

-- How far `handle` comes without a wait.
pub data Begun (S Name : Type 0) : Type 0 where
  ignored : Begun S Name
  answered : S → Bytes → Begun S Name
  loading : S → Load Name → Begun S Name

module _ ⦃u : Unicode⦄ (h : Hickory) (m : Moka) where
  -- The record is sent to the log, and the response is there.
  abbrev pub logged :
      Config → Env m → Option Text → Query h.Name → Served (AppState m) → Begun (AppState m) h.Name
  logged cfg env client query s =
      answered (log_with h m cfg env client query s.action s.state) s.response

  -- `handle` up to the load, with the query counted: `st` is the state that it counted in.
  unfoldable pub begin_query :
      Env m
      → Bytes
      → Option Text
      → Message h.Name
      → Query h.Name
      → AppState m
      → Begun (AppState m) h.Name
  unfolding log_with serve_blocked serve_cached
  begin_query env wire client request query st =
      if is_blocked st.blocklist (query_name h m query)
      then logged st.config env client query (serve_blocked h m request query st)
      else elim (m.get env.now (key_of h m query) st.cache) [
        | some cached ↦ logged st.config env client query (serve_cached h m request cached st)
        | none ↦ loading st (record {
          wire = wire;
          client = client;
          request = request;
          query = query;
          config = st.config;
          upstream = st.upstream;
        })
      ]

  unfoldable pub begin : Env m → Bytes → Option Text → AppState m → Begun (AppState m) h.Name
  unfolding begin_query count_query
  begin env wire client st = elim (h.from_vec wire) [
    | none ↦ ignored
    | some request ↦ elim (first? request.queries) [
      | none ↦ ignored
      | some query ↦ begin_query env wire client request query (count_query h m st)
    ]
  ]

  -- What `try_get_with` does in the end, at the cache as it is then.
  abbrev pub load_of : Env m → Load h.Name → AppState m → Loaded m.Cache
  load_of env l st =
      m.try_get_with env.flight env.now (key_of h m l.query)
        (resolve h env.net l.upstream env.now l.wire) st.cache

  -- The rest of `handle`.
  unfoldable pub complete : Env m → Load h.Name → AppState m → Result (AppState m × Bytes)
  unfolding finish_load log_with
  complete env l st =
      elim (finish_load h m l.request l.query (load_of env l st).result
        (after_load h m (key_of h m l.query) (load_of env l st) st)) [
          | ok s ↦ ok (log_with h m l.config env l.client l.query s.action s.state, s.response)
          | err e ↦ err e
          | panic ↦ panic
        ]
