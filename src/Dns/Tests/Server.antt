-- ===== src/Dns/Tests/Server.antt =====
-- A run of the process: a datagram asks, its load ends, and the reply is sent.
use rust_dns.Dns.{patch_id, query_name, Env, key_of}
use rust_dns.Upstream.{resolve}
use rust_dns.Text.{trim_end_matches, text}
use rust_dns.Blocklist.{is_blocked}
use rust_dns.Hickory.Toy.{decode, toy_query, toy, toy_reply}
use rust_dns.State.Toy.{load_toy, lookup, toy_moka, idle, forget}
use rust_dns.Dns.Server.{complete, Load, begin}
use rust_dns.Dns.Server.Steps.{
  buffered, spawned, waits, datagram, arrives, starts, loads, no_step, one_more, Process, Running,
  Evolves, Origin, admit, start, finish_wait,
}
use rust_dns.Text.Unicode.{ascii}
use rust_dns.Dns.Server.Reuse.{Reuses, complete-Reuses}
use rust_dns.Result.{ok}
use rust_dns.Dns.Tests.Fixture.{key, offline, entry, online, asking, question}
use rust_dns.State.{AppState, Action, try_send}
use rust_dns.Stats.{incr}
use rust_dns.Base.{false, ◌≤◌, ◌+◌, ℕ, ◌≡◌, refl, none, some, [], ◌∷◌}
use rust_dns.Dns.Server.Askers.{IsFair, Evolves-IsFair}

abbrev client : Origin
client = datagram (text "10.0.0.2") 53000

abbrev at_rest : Process toy_moka ℕ
at_rest = record { state = idle; tasks = []; received = []; sent = []; panics = 0 }

abbrev task : Running ℕ
task = record { origin = client; data_in = toy_query; phase = spawned }

abbrev load_under_way : Load ℕ
load_under_way = record {
  wire = toy_query;
  client = some (text "10.0.0.2");
  request = asking;
  query = question;
  config = idle.config;
  upstream = idle.upstream;
}

abbrev waiting_task : Running ℕ
waiting_task = record task { phase = waits load_under_way }

abbrev taken : Process toy_moka ℕ
taken = admit toy toy_moka client toy_query at_rest

abbrev asked : Process toy_moka ℕ
asked = start toy toy_moka online task [] [] taken

abbrev replied : Process toy_moka ℕ
replied = finish_wait toy toy_moka online waiting_task load_under_way [] asked

one_task : taken.tasks ≡ task ∷ []
unfolding admit buffered
one_task = refl

one_waits : asked.tasks ≡ waiting_task ∷ []
unfolding start begin decode is_blocked admit query_name trim_end_matches lookup
one_waits = refl

sent_to_client : replied.sent ≡ (client, toy_reply) ∷ []
unfolding finish_wait complete load_toy start begin decode is_blocked admit query_name
    trim_end_matches resolve patch_id
sent_to_client = refl

run : Evolves toy toy_moka at_rest replied
run =
    one_more
      (one_more (one_more no_step (arrives client toy_query at_rest))
        (starts online [] [] task taken refl one_task))
      (loads online [] [] waiting_task load_under_way asked refl one_waits)

Evolves-IsFair_example : IsFair toy toy_moka replied
Evolves-IsFair_example = Evolves-IsFair toy toy_moka at_rest replied run refl refl

decoded : toy.from_vec toy_query ≡ some asking
unfolding decode
decoded = refl

found_alone : toy_moka.get 1000 (key_of toy toy_moka question) idle.cache ≡ none
unfolding lookup
found_alone = refl

resolved : resolve toy online.net idle.upstream 1000 toy_query ≡ ok entry
unfolding resolve decode
resolved = refl

abbrev afterwards : AppState toy_moka
afterwards = record idle {
  cache = (key, entry, 1000) ∷ [];
  persist = (key, entry) ∷ [];
  stats = record idle.stats { forwarded = 1 };
  qlog = some (
      (record {
        ts_ms = 1_000_000;
        client = text "10.0.0.2";
        domain = text "a.example";
        qtype = 1 ∷ [];
        action = Action.forwarded;
        latency_ms = 3;
      })
      ∷ []);
}

completes : complete toy toy_moka online load_under_way idle ≡ ok (afterwards, toy_reply)
unfolding complete load_toy lookup decode query_name trim_end_matches resolve patch_id forget
    try_send incr
completes = refl

unblocked : is_blocked afterwards.blocklist (query_name toy toy_moka question) ≡ false
unfolding is_blocked query_name trim_end_matches
unblocked = refl

-- The same question, 44 seconds later.
abbrev much_later : Env toy_moka
much_later = record offline { now = 1044 }

complete-Reuses_example :
    Reuses toy toy_moka entry
      (1000 + 45)
      1044
      asking
      (begin toy toy_moka much_later toy_query none afterwards)
    × (45 ≤ idle.upstream.max_ttl)
complete-Reuses_example =
    complete-Reuses toy toy_moka online much_later load_under_way idle afterwards toy_reply
      toy_query none asking question entry refl found_alone resolved completes decoded refl refl
      unblocked
