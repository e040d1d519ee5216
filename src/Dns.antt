-- ===== src/Dns.antt =====
-- src/dns.rs: the path of one query. What a query meets outside the process, and what other tasks do
-- while it waits, is an argument, `Env`.
pub mod Branches
pub mod Reply
pub mod Counters
pub mod Proper
pub mod Sinkhole
pub mod Listen
pub mod Permits
pub mod Tcp
pub mod Server
pub mod Sockets
pub mod Tests
use rust_dns.Base.{
  ℕ, ◌+◌, ◌/◌, ◌%◌, ◌^◌, ◌≡◌, Bool, true, false, Option, none, some, List, [], ◌∷◌, ◌++◌, first?,
  ◌==◌, ltb, if◌then◌else◌,
}
use rust_dns.Blocklist.{is_blocked}
use rust_dns.Bytes.{Bytes}
use rust_dns.Cache.{CacheKey, CachedResponse}
use rust_dns.Config.{Config, DnsConfig}
use rust_dns.Hickory.{
  Hickory, Message, Query, Answer, Metadata, MessageType, RData, type_a, type_aaaa, no_error,
  serv_fail, nx_domain,
}
use rust_dns.Result.{Result, ok, err, panic}
use rust_dns.State.{
  Moka, Flight, Loaded, Action, LogRecord, AppState, try_send, persist_channel_cap, log_channel_cap,
}
use rust_dns.Stats.{incr}
use rust_dns.Text.{Text, text, equal, trim_end_matches}
use rust_dns.Text.Unicode.{Unicode}
use rust_dns.Upstream.{Net, resolve, unwrap_or}

-- Overwrites the first two bytes, if they are there.
unfoldable pub patch_id : Bytes → ℕ → Bytes
patch_id (a ∷ b ∷ rest) id = (id / 256 % 256) ∷ (id % 256) ∷ rest
patch_id wire id = wire

module _ (h : Hickory) where
  unfoldable pub base_response : Message h.Name → Query h.Name → Message h.Name
  base_response request query = record {
    metadata = record {
      id = request.metadata.id;
      message_type = MessageType.response;
      op_code = request.metadata.op_code;
      recursion_desired = request.metadata.recursion_desired;
      recursion_available = true;
      response_code = no_error;
    };
    queries = query ∷ [];
    answers = [];
  }

  abbrev pub with_code : ℕ → Message h.Name → Message h.Name
  with_code code m = record m { metadata = record m.metadata { response_code = code } }

  abbrev pub sink : Query h.Name → ℕ → RData h.Name → Message h.Name → Message h.Name
  sink query ttl rdata m = record m {
    answers = (record { name = query.name; ttl = ttl; rdata = rdata }) ∷ [];
  }

  -- The message that `build_blocked` encodes.
  unfoldable pub blocked_message : Message h.Name → Query h.Name → DnsConfig → Message h.Name
  unfolding base_response
  blocked_message request query dns =
      let resp = base_response request query in
      if equal dns.sinkhole_mode (text "nxdomain")
      then with_code nx_domain resp
      else if query.query_type == type_a
      then sink query dns.sinkhole_ttl (RData.a dns.sinkhole_ipv4) resp
      else if query.query_type == type_aaaa
      then sink query dns.sinkhole_ttl (RData.aaaa dns.sinkhole_ipv6) resp
      else resp

  unfoldable pub build_blocked : Message h.Name → Query h.Name → DnsConfig → Bytes
  unfolding blocked_message
  build_blocked request query dns = unwrap_or (h.to_vec (blocked_message request query dns)) []

  unfoldable pub build_response_code : Message h.Name → Query h.Name → ℕ → Bytes
  unfolding base_response
  build_response_code request query code =
      unwrap_or (h.to_vec (with_code code (base_response request query))) []

module _ (m : Moka) where
  pub record Env : Type 0 where
    pub net : Net
    pub now : ℕ
    pub now_ms : ℕ
    pub latency_ms : ℕ
    -- what other tasks make of the cache between the two lookups, and whether one of them is loading
    pub meanwhile : m.Cache → m.Cache
    pub flight : Flight

-- The state after a branch, its response and the action for the log.
pub record Served (S : Type 0) : Type 0 where
  pub state : S
  pub response : Bytes
  pub action : Action

module _ ⦃u : Unicode⦄ (h : Hickory) (m : Moka) where
  -- The name as the blocklist and the cache know it.
  unfoldable pub query_name : Query h.Name → Text
  query_name query = u.to_lowercase (trim_end_matches b'.' (h.name_text query.name))

  abbrev pub key_of : Query h.Name → CacheKey
  key_of query = record { name = query_name query; rtype = query.query_type }

  unfoldable pub count_query : AppState m → AppState m
  count_query st = record st { stats = record st.stats { queries = incr st.stats.queries } }

  unfoldable pub serve_blocked : Message h.Name → Query h.Name → AppState m → Served (AppState m)
  serve_blocked request query st = record {
    state = record st { stats = record st.stats { blocked = incr st.stats.blocked } };
    response = build_blocked h request query st.config.dns;
    action = Action.blocked;
  }

  unfoldable pub serve_cached : Message h.Name → CachedResponse → AppState m → Served (AppState m)
  serve_cached request cached st = record {
    state = record st { stats = record st.stats { cache_hits = incr st.stats.cache_hits } };
    response = patch_id cached.wire request.metadata.id;
    action = Action.cached;
  }

  -- The future that `try_get_with` may run also sends the entry to the writer.
  abbrev pub persisted :
      CacheKey
      → Result CachedResponse
      → List (CacheKey × CachedResponse)
      → List (CacheKey × CachedResponse)
  persisted key (ok resp) held = try_send persist_channel_cap (key, resp) held
  persisted key r held = held

  abbrev pub after_load : CacheKey → Loaded m.Cache → AppState m → AppState m
  after_load key l st = record st {
    cache = l.cache;
    persist = if l.ran then persisted key l.result st.persist else st.persist;
  }

  unfoldable pub finish_load :
      Message h.Name
      → Query h.Name
      → Result CachedResponse
      → AppState m
      → Result (Served (AppState m))
  finish_load request query (ok cached) st = ok (record {
    state = record st { stats = record st.stats { forwarded = incr st.stats.forwarded } };
    response = patch_id cached.wire request.metadata.id;
    action = Action.forwarded;
  })
  finish_load request query (err e) st = ok (record {
    state = record st {
      stats = record st.stats { upstream_errors = incr st.stats.upstream_errors };
    };
    response = build_response_code h request query serv_fail;
    action = Action.error;
  })
  finish_load request query panic st = panic

  unfoldable pub serve_miss :
      Env m → Bytes → Message h.Name → Query h.Name → AppState m → Result (Served (AppState m))
  unfolding finish_load
  serve_miss env wire request query st =
      let init = resolve h env.net st.upstream env.now wire in
      let l = m.try_get_with env.flight env.now (key_of query) init (env.meanwhile st.cache) in
      finish_load request query l.result (after_load (key_of query) l st)

  unfoldable pub serve_unblocked :
      Env m → Bytes → Message h.Name → Query h.Name → AppState m → Result (Served (AppState m))
  unfolding serve_miss serve_cached
  serve_unblocked env wire request query st = elim (m.get env.now (key_of query) st.cache) [
    | some cached ↦ ok (serve_cached request cached st)
    | none ↦ serve_miss env wire request query st
  ]

  unfoldable pub serve :
      Env m → Bytes → Message h.Name → Query h.Name → AppState m → Result (Served (AppState m))
  unfolding serve_unblocked serve_blocked
  serve env wire request query st =
      if is_blocked st.blocklist (query_name query)
      then ok (serve_blocked request query st)
      else serve_unblocked env wire request query st

  -- The record goes to the log, if there is one; `cfg` is the configuration that the query saw.
  unfoldable pub log_with :
      Config → Env m → Option Text → Query h.Name → Action → AppState m → AppState m
  log_with cfg env client query action st = elim st.qlog [
    | none ↦ st
    | some held ↦ record st {
      qlog = some (
          try_send log_channel_cap
            (record {
              ts_ms = env.now_ms;
              client = if cfg.qlog.log_client_ip then unwrap_or client [] else [];
              domain = query_name query;
              qtype = h.type_text query.query_type;
              action = action;
              latency_ms = env.latency_ms;
            })
            held);
    }
  ]

  unfoldable pub log_query : Env m → Option Text → Query h.Name → Action → AppState m → AppState m
  unfolding log_with
  log_query env client query action st = log_with st.config env client query action st

  -- The state afterwards and the response; `none` for a packet that is dropped.
  abbrev pub Handled : Type 0
  Handled = Result (AppState m × Option Bytes)

  unfoldable pub answer :
      Env m → Bytes → Option Text → Message h.Name → Query h.Name → AppState m → Handled
  unfolding serve log_query count_query
  answer env wire client request query st = elim (serve env wire request query (count_query st)) [
    | ok s ↦ ok (log_query env client query s.action s.state, some s.response)
    | err e ↦ err e
    | panic ↦ panic
  ]

  unfoldable pub handle : Env m → Bytes → Option Text → AppState m → Handled
  unfolding answer
  handle env wire client st = elim (h.from_vec wire) [
    | none ↦ ok (st, none)
    | some request ↦ elim (first? request.queries) [
      | none ↦ ok (st, none)
      | some query ↦ answer env wire client request query st
    ]
  ]
