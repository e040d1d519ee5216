-- ===== src/Dns/Tests.antt =====
-- Concrete queries through `handle`, and the theorems of src/dns.rs at them.
pub mod Fixture
mod Server
use rust_dns.State.Toy.{forget}
use rust_dns.Dns.Listen.{try_acquire}
use rust_dns.Dns.Counters.{no_packet, handle-drops, Balanced, Reached-Balanced, packet}
use rust_dns.State.Toy.{idle, toy_upstream}
use rust_dns.Dns.Tcp.Fuel.{Ends, tcp_conn-Ends}
use rust_dns.Base.{
  ℕ, zero, suc, ◌+◌, ◌*◌, ◌/◌, ◌%◌, ◌^◌, ◌≡◌, ◌≤◌, ◌<◌, ◌⊎◌, inl, inr, refl, sym, ap, ◌∙◌, Bool,
  true, false, Option, none, some, List, [], ◌∷◌, ◌++◌, length, take, drop, first?, arith,
  Bool-cases, Option-cases, some-inj, if◌then◌else◌, ◌==◌, ltb, leb, In, here, there, All, ◌&&◌,
  map,
}
use rust_dns.Result.{Result, ok, err, panic, io}
use rust_dns.Text.{equal, trim_end_matches, text}
use rust_dns.Hickory.Toy.{decode, toy, toy_query, toy_reply, try_encode}
use rust_dns.Stats.{incr, default_stats}
use rust_dns.State.Toy.{load_toy, toy_moka, lookup}
use rust_dns.Dns.Permits.{permits, Runs-permits}
use native.Mathlib.Decide.{ℕ_discrete}
use rust_dns.Text.Unicode.{ascii}
use rust_dns.Dns.{
  handle, blocked_message, query_name, key_of, build_blocked, patch_id, build_response_code,
}
use rust_dns.Dns.Tests.Fixture.{
  online, key, entry, offline, env_of, question, blocking, warm, asking,
}
use rust_dns.State.{Action, joined, try_send, persist_channel_cap, AppState}
use rust_dns.Blocklist.{is_blocked}
use rust_dns.Upstream.{resolve}
use rust_dns.Config.{DnsConfig, default_config}
use rust_dns.Bytes.{Bytes}
use rust_dns.Hickory.{Query, Message, serv_fail}
use rust_dns.Dns.Listen.{Task, Udp, receive, goes_on, start_at, Step}
use rust_dns.Dns.Proper.{Proper, handle-Proper}
use rust_dns.Dns.Reply.{id_of, handle-id}
use rust_dns.Dns.Sinkhole.{Sinkhole, build_blocked-Sinkhole}
use rust_dns.Dns.Tcp.{Conn, Turn, tcp_conn, frame}
use rust_dns.Dns.Tcp.Frames.{serve_each, frames, tcp_conn-frames}
use rust_dns.Dns.Tcp.Leaks.{tcp_conn-permits}

forwarded :
    handle toy toy_moka online toy_query none idle
    ≡ ok (
      record idle {
        cache = (key, entry, 1000) ∷ [];
        persist = (key, entry) ∷ [];
        qlog = some (
            (record {
              ts_ms = 1_000_000;
              client = [];
              domain = text "a.example";
              qtype = 1 ∷ [];
              action = Action.forwarded;
              latency_ms = 3;
            })
            ∷ []);
        stats = record (default_stats 0) { queries = 1; forwarded = 1 };
      },
      some toy_reply,
    )
unfolding handle decode is_blocked query_name trim_end_matches lookup load_toy resolve try_send incr
    patch_id forget
forwarded = refl

abbrev datagram : Task
datagram = record { data_in = toy_query; peer = text "10.0.0.2" }

abbrev listening : Udp toy_moka
listening = record { state = idle; tasks = []; sent = [] }

abbrev nxdomain_mode : DnsConfig
nxdomain_mode = record default_config.dns { sinkhole_mode = text "nxdomain" }

abbrev nx_reply : Bytes
nx_reply = 0x12 ∷ 0x34 ∷ 1 ∷ 3 ∷ 97 ∷ 1 ∷ []

encoded : toy.to_vec (blocked_message toy asking question nxdomain_mode) ≡ some nx_reply
unfolding blocked_message try_encode equal
encoded = refl

handle-id_example : id_of toy_reply ≡ 0x1234
unfolding decode
handle-id_example =
    handle-id toy toy_moka online toy_query none idle _ asking toy_reply refl (ground arith)
      forwarded (ground arith)

handle-Proper_example :
    (query : Query ℕ) × (first? asking.queries ≡ some query)
    × Proper toy toy_moka online toy_query asking query idle toy_reply
unfolding decode
handle-Proper_example =
    handle-Proper toy toy_moka online toy_query none idle _ asking toy_reply refl (ground arith)
      forwarded

build_blocked-Sinkhole_example :
    (msg : Message ℕ) × (toy.from_vec (build_blocked toy asking question nxdomain_mode) ≡ some msg)
    × Sinkhole toy asking question nxdomain_mode msg
build_blocked-Sinkhole_example =
    build_blocked-Sinkhole toy asking question nxdomain_mode nx_reply encoded

abbrev conn : Conn toy_moka
conn = record { state = warm; input = frame toy_query ++ []; output = [] }

abbrev turns : ℕ → Turn toy_moka
turns n = record { env = offline; written = true }

-- The state after the one message, which the cache answers.
abbrev after_tcp : AppState toy_moka
after_tcp = record warm {
  qlog = some (
      (record {
        ts_ms = 1_000_000;
        client = text "10.0.0.2";
        domain = text "a.example";
        qtype = 1 ∷ [];
        action = Action.cached;
        latency_ms = 3;
      })
      ∷ []);
  stats = record (default_stats 0) { queries = 1; cache_hits = 1 };
}

served_each :
    serve_each toy toy_moka turns (text "10.0.0.2") 0 (toy_query ∷ []) warm
    ≡ some (after_tcp, frame toy_reply ++ [])
unfolding serve_each handle try_acquire decode is_blocked query_name trim_end_matches lookup
    try_send incr patch_id
served_each = refl

tcp_conn-frames_example :
    tcp_conn toy toy_moka turns
      (text "10.0.0.2")
      (record { state = warm; input = frames (toy_query ∷ []) ++ []; output = [] })
    ≡ record { state = after_tcp; input = []; output = frame toy_reply ++ [] }
tcp_conn-frames_example =
    tcp_conn-frames toy toy_moka turns (text "10.0.0.2") (toy_query ∷ []) warm after_tcp []
      (frame toy_reply ++ []) (ground arith) (inl (omega arith)) (λ k. refl) served_each

tcp_conn-Ends_example :
    Ends toy toy_moka
      (text "10.0.0.2")
      turns
      0
      conn
      (tcp_conn toy toy_moka turns (text "10.0.0.2") conn)
tcp_conn-Ends_example = tcp_conn-Ends toy toy_moka (text "10.0.0.2") turns conn
