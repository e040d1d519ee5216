-- ===== src/Boot/Tests.antt =====
-- A first start, on a blank disk.
use rust_dns.Dns.Sockets.{reuseport_udp, spawn_udp}
use rust_dns.Cache.Store.{open_store, read_all_valid}
use rust_dns.Config.Atomic.{
  before_last_dot, file_stem, split_name, with_extension, put, save, load_or_create, write_atomic,
  Disk, whole,
}
use rust_dns.Text.{equal, Text, text}
use rust_dns.Config.Toy.{config_discrete, toy_toml, with_only_token}
use native.Mathlib.Decide.{ℕ_discrete}
use rust_dns.Text.Unicode.{ascii}
use rust_dns.State.Toy.{toy_moka}
use rust_dns.Blocklist.{empty, from_text}
use rust_dns.Dns.Server.Steps.{
  Advances, spawned, connection, arrives, starts, no_step, one_more, Process, Running, Origin,
  admit, start, buffered, requests,
}
use rust_dns.Hickory.Toy.{toy, toy_query}
use rust_dns.Dns.Tests.Fixture.{online}
use rust_dns.Boot.Life.{started, Evolves-started, Evolves-IsKept_started, Evolves-SameRules}
use rust_dns.Dns.Server.Checked.{IsKept}
use rust_dns.Config.{default_config, Config}
use rust_dns.Dns.Server.Invariant.{IsSound}
use rust_dns.Boot.Main.{System, LiveServer, main}
use rust_dns.Boot.Ready.{IsReady, main-IsReady}
use rust_dns.Blocklist.File.{default_blocklist, from_file}
use rust_dns.Cache.Redb.{never_fails, Rows}
use rust_dns.Upstream.{v4}
use rust_dns.Boot.{initial_state, Start, random_token, load_config, hex_number, hex, needs_token}
use rust_dns.State.{AppState}
use rust_dns.Web.{Outside}
use rust_dns.Web.Router.{HttpRequest, Extractors, post, app}
use rust_dns.Dns.Server.Authority.{SameRules, Authorized}
use rust_dns.Boot.Life.{Evolves-drains}
use rust_dns.Dns.Server.Steps.{Evolves}
use rust_dns.Base.{◌⊎◌, false, max, ℕ, ◌≡◌, refl, true, none, some, [], ◌∷◌, length}
use rust_dns.Bytes.{Bytes}

abbrev first_start : Start
first_start = record {
  now = 0;
  urandom = none;
  seed = 0xabc;
  write_end = whole;
  renames = true;
  token_write_end = whole;
  token_renames = true;
  readable = true;
  writes = true;
  parse_socket = λ s. none;
}

abbrev path : Text
path = text "config.toml"

abbrev blank : Disk
blank q = none

abbrev token : Text
token = text "00000000000000000000000000000abc"

generates : random_token none 0xabc ≡ token
unfolding random_token hex_number
generates = refl

encodes : random_token (some (0 ∷ 255 ∷ 16 ∷ [])) 0 ≡ text "00ff10"
unfolding random_token hex
encodes = refl

abbrev first_disk : Disk
first_disk = (write_atomic whole true path [] blank).0

abbrev last_disk : Disk
last_disk = (write_atomic whole true path (random_token none 0xabc) first_disk).0

starts_fresh :
    load_config toy_toml first_start path blank
    ≡ (last_disk, some (with_only_token (random_token none 0xabc)))
unfolding load_config load_or_create save write_atomic needs_token config_discrete ℕ_discrete put
    random_token hex_number
starts_fresh = refl

no_bytes : (buf : Bytes) → first_start.urandom ≡ some buf → length buf ≡ 32
no_bytes buf e = cc

abbrev client : Origin
client = connection 1 (text "10.0.0.2")

abbrev fresh : Process toy_moka ℕ
fresh = started toy toy_moka first_start path default_config empty [] none

abbrev task : Running ℕ
task = record { origin = client; data_in = toy_query; phase = spawned }

abbrev taken : Process toy_moka ℕ
taken = admit toy toy_moka client toy_query fresh

one_task : taken.tasks ≡ task ∷ []
unfolding admit started buffered
one_task = refl

Evolves-drains_example :
    (p' : Process toy_moka ℕ) × Evolves toy toy_moka (start toy toy_moka online task [] [] taken) p'
    × (p'.tasks ≡ [])
    × (p'.state.inflight ≡ max default_config.dns.max_inflight 1)
Evolves-drains_example =
    Evolves-drains toy toy_moka first_start online path default_config empty [] none _ (
      one_more (one_more no_step (arrives client toy_query fresh))
        (starts online [] [] task taken refl one_task))

Evolves-IsKept_started_example :
    IsKept toy toy_moka default_config.web default_config.cache.min_ttl default_config.cache.max_ttl
      (start toy toy_moka online task [] [] taken)
Evolves-IsKept_started_example =
    Evolves-IsKept_started toy toy_moka first_start path default_config empty [] none _ (
      one_more (one_more no_step (arrives client toy_query fresh))
        (starts online [] [] task taken refl one_task))

-- A request that takes the example off the blocklist.
abbrev with_token : Config
with_token = record default_config {
  web = record default_config.web { admin_token = text "s3cret" };
}

abbrev outside : Outside
outside = record {
  parse_socket = λ s. none;
  parse_ipv4 = λ s. none;
  parse_ipv6 = λ s. none;
  show_ipv4 = λ n. [];
  show_ipv6 = λ n. [];
  save = λ path cfg. none;
  write_text = λ path body. none;
}

abbrev extractors : Extractors
extractors = record {
  blocklist_update = λ body. some body;
  config_update = λ body. none;
  log_query = λ q. none;
}

abbrev posting : HttpRequest
posting = record {
  head_part = record {
    path = text "/api/blocklist";
    authorization = none;
    x_admin_token = some (text "s3cret");
  };
  method = post;
  uri_query = [];
  body = [];
}

abbrev guarded : Process toy_moka ℕ
guarded = started toy toy_moka first_start path with_token empty [] none

abbrev after_request : Process toy_moka ℕ
after_request = record guarded {
  state = (app toy_moka outside extractors [] (λ filter limit. none) 0 posting guarded.state).0;
}

abbrev post_step : Advances toy toy_moka guarded after_request
post_step = requests outside extractors [] (λ filter limit. none) 0 posting guarded

Evolves-SameRules_example :
    SameRules toy toy_moka guarded.state after_request.state
    ⊎ Authorized toy toy_moka (text "s3cret") guarded after_request post_step
Evolves-SameRules_example =
    Evolves-SameRules toy toy_moka first_start path with_token empty [] none guarded after_request
      refl no_step post_step

Evolves-started_example :
    IsSound toy toy_moka
      (max default_config.dns.max_inflight 1)
      (start toy toy_moka online task [] [] taken)
Evolves-started_example =
    Evolves-started toy toy_moka first_start path default_config empty [] none _ (
      one_more (one_more no_step (arrives client toy_query fresh))
        (starts online [] [] task taken refl one_task))

abbrev reachable : Start
reachable = record first_start { parse_socket = λ s. some (v4 0 53) }

-- Two processors, and no call that fails.
abbrev sound : System
sound = record { fails = λ n c. false; parallelism = some 2; tcp_binds = true }

abbrev first_config : Config
first_config = with_only_token (random_token none 0xabc)

abbrev live : LiveServer (AppState toy_moka) Rows
live = record {
  config = first_config;
  state =
      initial_state toy_moka reachable path first_config (from_text default_blocklist) []
        (read_all_valid never_fails 0 []);
  store = [];
  address = v4 0 53;
  sockets = (spawn_udp (λ n c. false) (v4 0 53) first_config.dns.workers (some 2)).0;
}

runs :
    main toy_moka never_fails toy_toml reachable sound path [] (some []) blank
    ≡ (put first_config.web.blocklist_path (some default_blocklist) last_disk, some live)
unfolding main load_config load_or_create save write_atomic needs_token config_discrete ℕ_discrete
    put random_token hex_number from_file equal with_extension split_name file_stem before_last_dot
    open_store reuseport_udp
runs = refl

main-IsReady_example : IsReady toy_moka never_fails toy_toml reachable sound live
main-IsReady_example =
    main-IsReady toy_moka never_fails toy_toml reachable sound path [] (some []) blank
      (put first_config.web.blocklist_path (some default_blocklist) last_disk) live no_bytes runs
