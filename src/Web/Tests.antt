-- ===== src/Web/Tests.antt =====
-- The handlers at concrete requests, and their theorems.
use rust_dns.Web.{
  trim_start_matches, bearer, header_bearer, header_token, double_quotes, clause, Request,
  sql_escape, where_sql, log_limit, auth, Outside, ConfigUpdate, drop_breaks, set_config,
  set_blocklist,
}
use rust_dns.Text.{trim, equal, join, text, starts_with, strip_prefix, is_whitespace}
use rust_dns.Web.Update.{Outcome, Replaced, set_config-Outcome, set_blocklist-Replaced}
use rust_dns.Upstream.{v4}
use rust_dns.Text.Unicode.{ascii}
use rust_dns.Base.{◌≡◌, refl, true, false, none, some, [], ◌∷◌, ◌++◌, arith, ◌==◌, All, ◌⊎◌}
use rust_dns.Web.Gate.{Presents}
use rust_dns.Web.Sql.{read_literal, sql_escape-literal}
use rust_dns.Web.Router.{HttpRequest, HttpResponse, Extractors, post, unauthorized, app}
use rust_dns.Web.Router.Guard.{IsUpdate, app-Guarded}
use rust_dns.State.Toy.{toy_moka, idle}
use rust_dns.Text.Trim.{IsTrimmed}
use rust_dns.State.{AppState}

-- An injection is neutralised.
escaped : sql_escape (text "a' OR 1=1; --") ≡ text "a'' OR 1=1 --"
unfolding sql_escape double_quotes drop_breaks
escaped = refl

filters :
    where_sql (record {
      limit = none;
      domain = some (text "a.b");
      client = some [];
      action = some (text "x");
    })
    ≡ text "WHERE domain LIKE '%a.b%' AND action = 'x'"
unfolding where_sql clause join sql_escape double_quotes drop_breaks
filters = refl

limits :
    (log_limit (record { limit = none; domain = none; client = none; action = none }) ≡ 200)
    × (log_limit (record { limit = some 9999; domain = none; client = none; action = none }) ≡ 5000)
unfolding log_limit
limits = (refl, refl)

abbrev with_bearer : Request
with_bearer = record {
  path = text "/api/config";
  authorization = some (text "Bearer s3cret");
  x_admin_token = none;
}

abbrev without_token : Request
without_token = record with_bearer { authorization = none }

gate :
    (auth (text "s3cret") with_bearer ≡ true)
    × (auth (text "s3cret") without_token ≡ false)
    × (auth (text "s3cret") (record without_token { path = text "/" }) ≡ true)
unfolding auth starts_with header_bearer equal bearer trim trim_start_matches strip_prefix
    header_token
gate = (refl, refl, refl)

api : starts_with (text "/api") with_bearer.path ≡ true
unfolding starts_with
api = refl

passes : auth (text "s3cret") with_bearer ≡ true
unfolding auth starts_with header_bearer equal bearer trim trim_start_matches strip_prefix
passes = refl

trimmed : IsTrimmed (text "s3cret")
unfolding is_whitespace
trimmed = ground arith

no_word : strip_prefix (text "Bearer ") (text "s3cret") ≡ none
unfolding strip_prefix
no_word = refl

sql_escape-literal_example :
    (read_literal (sql_escape (text "a'; --") ++ (text "%" ++ (b'\'' ∷ text " AND")))
      ≡ some (drop_breaks (text "a'; --") ++ text "%", text " AND"))
    × All (λ c. (c == b';') ≡ false) (sql_escape (text "a'; --"))
sql_escape-literal_example =
    sql_escape-literal (text "a'; --") (text "%") (text " AND") (ground arith) refl

-- Every server is at 1.1.1.1:53, no address is refused, and nothing fails to be written.
abbrev outside : Outside
outside = record {
  parse_socket = λ s. some (v4 0x01010101 53);
  parse_ipv4 = λ s. some 0;
  parse_ipv6 = λ s. some 0;
  show_ipv4 = λ n. text "0.0.0.0";
  show_ipv6 = λ n. text "::";
  save = λ path cfg. none;
  write_text = λ path body. none;
}

abbrev update : ConfigUpdate
update = record {
  upstream_servers = text " 1.1.1.1:53 " ∷ text " " ∷ [];
  timeout_ms = 500;
  max_qps = 10;
  max_concurrent = 4;
  sinkhole_mode = text "nxdomain";
  sinkhole_ipv4 = text "0.0.0.0";
  sinkhole_ipv6 = text "::";
}

set_config-Outcome_example :
    Outcome toy_moka outside update idle (set_config toy_moka outside update idle)
set_config-Outcome_example = set_config-Outcome toy_moka outside update idle

set_blocklist-Replaced_example :
    Replaced toy_moka outside
      (text "example")
      idle
      (set_blocklist toy_moka outside (text "example") idle)
set_blocklist-Replaced_example = set_blocklist-Replaced toy_moka outside (text "example") idle

abbrev extractors : Extractors
extractors = record {
  blocklist_update = λ body. some body;
  config_update = λ body. some update;
  log_query = λ q. none;
}

abbrev guarded : AppState toy_moka
guarded = record idle {
  config = record idle.config { web = record idle.config.web { admin_token = text "s3cret" } };
}

abbrev posting : HttpRequest
posting = record { head_part = with_bearer; method = post; uri_query = []; body = [] }

abbrev answer : HttpRequest → AppState toy_moka × HttpResponse
answer req = app toy_moka outside extractors [] (λ filter limit. none) 0 req guarded

denies : answer (record posting { head_part = without_token }) ≡ (guarded, unauthorized)
unfolding app auth starts_with header_bearer header_token
denies = refl

app-Guarded_example :
    (((answer posting).0 ≡ guarded) ⊎ (IsUpdate posting × Presents (text "s3cret") with_bearer))
    × ((starts_with (text "/api") with_bearer.path ≡ false)
        ⊎ (Presents (text "s3cret") with_bearer ⊎ (answer posting ≡ (guarded, unauthorized))))
app-Guarded_example =
    app-Guarded toy_moka outside extractors [] (λ filter limit. none) 0 posting guarded refl
