-- ===== src/Web.antt =====
-- src/web.rs: the handlers of the admin API. Parsing addresses and writing files are parameters;
-- Web.Router has the routes.
pub mod Gate
pub mod Sql
pub mod Update
pub mod Untouched
pub mod Router
mod Tests
use rust_dns.Blocklist.{len, to_sorted_vec, from_text, to_file_text}
use rust_dns.Stats.{StatsSnapshot, snapshot}
use rust_dns.Base.{
  min, max, ◌||◌, not, is_empty, ℕ, zero, suc, ◌+◌, ◌*◌, ◌/◌, ◌%◌, ◌^◌, ◌≡◌, ◌≤◌, ◌<◌, ◌⊎◌, inl,
  inr, refl, sym, ap, ◌∙◌, Bool, true, false, Option, none, some, List, [], ◌∷◌, ◌++◌, length, take,
  drop, first?, arith, Bool-cases, Option-cases, some-inj, if◌then◌else◌, ◌==◌, ltb, leb, In, here,
  there, All, ◌&&◌, map,
}
use rust_dns.Result.{Result, ok, err, panic, Error}
use rust_dns.Text.{Text, strip_prefix, trim, equal, starts_with, text, join}
use rust_dns.Upstream.{unwrap_or, SocketAddr, set_servers}
use rust_dns.Text.Unicode.{Unicode}
use rust_dns.Config.{Config, upstream_addrs}
use rust_dns.State.{Moka, AppState}

-- What `auth` reads of a request: its path, and the two headers if they are there as text.
pub record Request : Type 0 where
  pub path : Text
  pub authorization : Option Text
  pub x_admin_token : Option Text

-- `str::trim_start_matches`: the prefix is stripped as often as it is there.
unfoldable pub trim_start_matches : ℕ → Text → Text → Text
trim_start_matches zero p s = s
trim_start_matches (suc fuel) p s = elim (strip_prefix p s) [
  | none ↦ s
  | some rest ↦ trim_start_matches fuel p rest
]

-- The text that follows the word `Bearer`, without white space around it.
unfoldable pub bearer : Text → Text
bearer s = trim (trim_start_matches (length s) (text "Bearer ") s)

unfoldable pub header_bearer : Text → Option Text → Bool
header_bearer token none = false
header_bearer token (some s) = equal (bearer s) token

unfoldable pub header_token : Text → Option Text → Bool
header_token token none = false
header_token token (some s) = equal s token

-- `true` where the request goes on, `false` for the reply 401.
unfoldable pub auth : Text → Request → Bool
auth token req =
    if not (starts_with (text "/api") req.path)
    then true
    else if is_empty token
    then true
    else header_bearer token req.authorization || header_token token req.x_admin_token

-- `filter` of `;` and `\`.
unfoldable pub drop_breaks : Text → Text
drop_breaks [] = []
drop_breaks (c ∷ s) = let rest = drop_breaks s in if c == b';' || c == b'\\' then rest else c ∷ rest

-- `replace` of a quote by two.
unfoldable pub double_quotes : Text → Text
double_quotes [] = []
double_quotes (c ∷ s) =
    let rest = double_quotes s in if c == b'\'' then b'\'' ∷ b'\'' ∷ rest else c ∷ rest

unfoldable pub sql_escape : Text → Text
sql_escape s = double_quotes (drop_breaks s)

pub record LogQuery : Type 0 where
  pub limit : Option ℕ
  pub domain : Option Text
  pub client : Option Text
  pub action : Option Text

-- A filter that is there and not empty becomes a clause.
unfoldable pub clause : Text → Text → Option Text → List Text
clause before after none = []
clause before after (some s) = if is_empty s then [] else (before ++ (sql_escape s ++ after)) ∷ []

unfoldable pub where_sql : LogQuery → Text
where_sql q =
    let clauses =
      clause (text "domain LIKE '%") (text "%'") q.domain
      ++ (clause (text "client = '") (text "'") q.client
          ++ clause (text "action = '") (text "'") q.action) in
    if is_empty clauses then [] else text "WHERE " ++ join (text " AND ") clauses

-- `unwrap_or(200).clamp(1, 5000)`.
unfoldable pub log_limit : LogQuery → ℕ
log_limit q = max 1 (min (unwrap_or q.limit 200) 5000)

pub record BlocklistResponse : Type 0 where
  pub count : ℕ
  pub domains : List Text

pub record ConfigUpdate : Type 0 where
  pub upstream_servers : List Text
  pub timeout_ms : ℕ
  pub max_qps : ℕ
  pub max_concurrent : ℕ
  pub sinkhole_mode : Text
  pub sinkhole_ipv4 : Text
  pub sinkhole_ipv6 : Text

-- What a handler answers with the status 400.
pub data AppError : Type 0 where
  no_upstream : AppError
  invalid_upstream : Text → AppError
  invalid_sinkhole_ipv4 invalid_sinkhole_ipv6 : AppError
  other : Error → AppError

pub data Reply {ℓ} (A : Type ℓ) : Type ℓ where
  done : A → Reply A
  refused : AppError → Reply A

-- The standard library's parsing and printing of addresses, and the writing of a file.
pub record Outside : Type 0 where
  pub parse_socket : Text → Option SocketAddr
  pub parse_ipv4 : Text → Option ℕ
  pub parse_ipv6 : Text → Option ℕ
  pub show_ipv4 : ℕ → Text
  pub show_ipv6 : ℕ → Text
  -- `Config::save`, and `write_atomic` of the blocklist's text
  pub save : Text → Config → Option Error
  pub write_text : Text → Text → Option Error

pub record ConfigView : Type 0 where
  pub upstream_servers : List Text
  pub timeout_ms : ℕ
  pub max_qps : ℕ
  pub max_concurrent : ℕ
  pub sinkhole_mode : Text
  pub sinkhole_ipv4 : Text
  pub sinkhole_ipv6 : Text
  pub dns_bind : Text
  pub web_bind : Text
  pub qlog_enabled : Bool
  pub note : Text

-- `map(trim)`, then `filter` of what is not empty.
unfoldable pub given : List Text → List Text
given [] = []
given (s ∷ ss) = let rest = given ss in if is_empty (trim s) then rest else trim s ∷ rest

unfoldable pub first_invalid : (Text → Option SocketAddr) → List Text → Option Text
first_invalid parse [] = none
first_invalid parse (s ∷ ss) = elim (parse s) [ none ↦ some s | some a ↦ first_invalid parse ss ]

-- The configuration after the update.
abbrev pub updated : ConfigUpdate → List Text → ℕ → ℕ → Config → Config
updated body servers ipv4 ipv6 cfg = record cfg {
  upstream = record cfg.upstream {
    servers = servers;
    timeout_ms = body.timeout_ms;
    max_qps = body.max_qps;
    max_concurrent = body.max_concurrent;
  };
  dns = record cfg.dns {
    sinkhole_mode = body.sinkhole_mode;
    sinkhole_ipv4 = ipv4;
    sinkhole_ipv6 = ipv6;
  };
}

module _ ⦃u : Unicode⦄ (m : Moka) (io : Outside) where
  unfoldable pub get_blocklist : AppState m → BlocklistResponse
  get_blocklist st = record { count = len st.blocklist; domains = to_sorted_vec st.blocklist }

  unfoldable pub set_blocklist : Text → AppState m → AppState m × Reply BlocklistResponse
  set_blocklist body st =
      let bl = from_text body in
      elim (io.write_text st.config.web.blocklist_path (to_file_text bl)) [
        | some e ↦ (st, refused (other e))
        | none ↦ (
          record st { blocklist = bl },
          done (record { count = len bl; domains = to_sorted_vec bl }),
        )
      ]

  unfoldable pub get_config : AppState m → ConfigView
  get_config st = record {
    upstream_servers = st.config.upstream.servers;
    timeout_ms = st.config.upstream.timeout_ms;
    max_qps = st.config.upstream.max_qps;
    max_concurrent = st.config.upstream.max_concurrent;
    sinkhole_mode = st.config.dns.sinkhole_mode;
    sinkhole_ipv4 = io.show_ipv4 st.config.dns.sinkhole_ipv4;
    sinkhole_ipv6 = io.show_ipv6 st.config.dns.sinkhole_ipv6;
    dns_bind = st.config.dns.bind;
    web_bind = st.config.web.bind;
    qlog_enabled = st.config.qlog.enabled;
    note =
        text
          "Upstream servers + sinkhole apply live. Other fields persist and take effect on restart.";
  }

  -- `elapsed` is the time since the start.
  unfoldable pub get_stats : ℕ → AppState m → StatsSnapshot
  get_stats elapsed st = snapshot elapsed st.stats (m.entry_count st.cache)

  -- `run_query` is the query that DataFusion runs for a filter and a limit. `none` is the status 500.
  unfoldable pub get_logs : (Text → ℕ → Option Text) → LogQuery → AppState m → Option Text
  get_logs run_query q st =
      if not st.config.qlog.enabled then some (text "[]") else run_query (where_sql q) (log_limit q)

  -- The new configuration is saved, then its servers and itself become those in use.
  unfoldable pub store_config : Config → AppState m → AppState m × Reply ConfigView
  store_config cfg st = elim (io.save st.config_path cfg) [
    | some e ↦ (st, refused (other e))
    | none ↦
        let st' : AppState m = record st {
          upstream = set_servers (upstream_addrs io.parse_socket cfg) st.upstream;
          config = cfg;
        } in
        (st', done (get_config st'))
  ]

  unfoldable pub set_config : ConfigUpdate → AppState m → AppState m × Reply ConfigView
  set_config body st =
      let servers = given body.upstream_servers in
      if is_empty servers
      then (st, refused no_upstream)
      else elim (first_invalid io.parse_socket servers) [
        | some s ↦ (st, refused (invalid_upstream s))
        | none ↦ elim (io.parse_ipv4 body.sinkhole_ipv4) [
          | none ↦ (st, refused invalid_sinkhole_ipv4)
          | some ipv4 ↦ elim (io.parse_ipv6 body.sinkhole_ipv6) [
            | none ↦ (st, refused invalid_sinkhole_ipv6)
            | some ipv6 ↦ store_config (updated body servers ipv4 ipv6 st.config) st
          ]
        ]
      ]
