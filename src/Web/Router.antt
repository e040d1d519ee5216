-- ===== src/Web/Router.antt =====
-- src/web.rs: `serve`, the routes with the token gate in front of them. The decoding of bodies and of
-- the query string is a parameter, as are the page and what DataFusion answers.
pub mod Guard
pub mod Cases
use rust_dns.Base.{
  is_empty, ℕ, zero, suc, ◌+◌, ◌*◌, ◌/◌, ◌%◌, ◌^◌, ◌≡◌, ◌≤◌, ◌<◌, ◌⊎◌, inl, inr, refl, sym, ap, ◌∙◌,
  Bool, true, false, Option, none, some, List, [], ◌∷◌, ◌++◌, length, take, drop, first?, arith,
  Bool-cases, Option-cases, some-inj, if◌then◌else◌, ◌==◌, ltb, leb, In, here, there, All, ◌&&◌,
  map,
}
use rust_dns.Web.{
  done, refused, Request, Reply, BlocklistResponse, ConfigUpdate, ConfigView, LogQuery, Outside,
  AppError, get_stats, set_blocklist, set_config, get_blocklist, get_config, get_logs, auth,
}
use rust_dns.Result.{Result, ok, err, panic}
use rust_dns.Text.{Text, equal, text}
use rust_dns.Text.Unicode.{Unicode}
use rust_dns.Bytes.{Bytes}
use rust_dns.State.{Moka, AppState}
use rust_dns.Stats.{StatsSnapshot}

pub data Method : Type 0 where
  get head post other_method : Method

-- `head` is what `auth` reads of it.
pub record HttpRequest : Type 0 where
  pub head_part : Request
  pub method : Method
  pub uri_query : Text
  pub body : Bytes

pub data HttpResponse : Type 0 where
  page : Text → HttpResponse
  blocklist_json : BlocklistResponse → HttpResponse
  config_json : ConfigView → HttpResponse
  stats_json : StatsSnapshot → HttpResponse
  logs_json : Text → HttpResponse
  bad_request : AppError → HttpResponse
  unauthorized not_found method_not_allowed not_decoded internal_error : HttpResponse

-- axum's extractors, `none` where they reject the request themselves.
pub record Extractors : Type 0 where
  pub blocklist_update : Bytes → Option Text
  pub config_update : Bytes → Option ConfigUpdate
  pub log_query : Text → Option LogQuery

abbrev pub blocklist_reply : Reply BlocklistResponse → HttpResponse
blocklist_reply (done r) = blocklist_json r
blocklist_reply (refused e) = bad_request e

abbrev pub config_reply : Reply ConfigView → HttpResponse
config_reply (done v) = config_json v
config_reply (refused e) = bad_request e

abbrev pub logs_reply : Option Text → HttpResponse
logs_reply (some rows) = logs_json rows
logs_reply none = internal_error

module _ ⦃u : Unicode⦄ (m : Moka) (io : Outside) (x : Extractors) (index : Text)
    (run_query : Text → ℕ → Option Text) (elapsed : ℕ) where
  abbrev pub Answered : Type 0
  Answered = AppState m × HttpResponse

  -- A route that only reads; `head` is served as `get`.
  abbrev pub reads : Method → HttpResponse → AppState m → Answered
  reads get r st = (st, r)
  reads head r st = (st, r)
  reads post r st = (st, method_not_allowed)
  reads other_method r st = (st, method_not_allowed)

  abbrev pub post_blocklist : Option Text → AppState m → Answered
  post_blocklist none st = (st, not_decoded)
  post_blocklist (some body) st =
      let (st', r) = set_blocklist m io body st in (st', blocklist_reply r)

  abbrev pub post_config : Option ConfigUpdate → AppState m → Answered
  post_config none st = (st, not_decoded)
  post_config (some body) st = let (st', r) = set_config m io body st in (st', config_reply r)

  abbrev pub blocklist_route : Method → Bytes → AppState m → Answered
  blocklist_route post body st = post_blocklist (x.blocklist_update body) st
  blocklist_route get body st = reads get (blocklist_json (get_blocklist m io st)) st
  blocklist_route head body st = reads head (blocklist_json (get_blocklist m io st)) st
  blocklist_route other_method body st = (st, method_not_allowed)

  abbrev pub config_route : Method → Bytes → AppState m → Answered
  config_route post body st = post_config (x.config_update body) st
  config_route get body st = reads get (config_json (get_config m io st)) st
  config_route head body st = reads head (config_json (get_config m io st)) st
  config_route other_method body st = (st, method_not_allowed)

  abbrev pub logs_of : Option LogQuery → AppState m → HttpResponse
  logs_of none st = not_decoded
  logs_of (some q) st = logs_reply (get_logs m io run_query q st)

  -- The table of routes.
  unfoldable pub route : HttpRequest → AppState m → Answered
  unfolding get_stats
  route req st =
      let path = req.head_part.path in
      if equal path (text "/")
      then reads req.method (page index) st
      else if equal path (text "/api/blocklist")
      then blocklist_route req.method req.body st
      else if equal path (text "/api/config")
      then config_route req.method req.body st
      else if equal path (text "/api/stats")
      then reads req.method (stats_json (get_stats m io elapsed st)) st
      else if equal path (text "/api/logs")
      then reads req.method (logs_of (x.log_query req.uri_query) st) st
      else (st, not_found)

  -- The gate is in front of every route.
  unfoldable pub app : HttpRequest → AppState m → Answered
  app req st =
      if auth st.config.web.admin_token req.head_part then route req st else (st, unauthorized)
