-- ===== src/Dns/Tests/Fixture.antt =====
-- A state, a network and a question for tests.
use rust_dns.Base.{ℕ, true, [], ◌∷◌}
use rust_dns.Result.{Result, ok, err, io}
use rust_dns.Upstream.{Net}
use rust_dns.State.{AppState, Flight, alone}
use rust_dns.Cache.{CachedResponse, CacheKey}
use rust_dns.Bytes.{Bytes}
use rust_dns.Dns.{Env}
use rust_dns.Hickory.{Query, Message, MessageType}
use rust_dns.Text.{text}
use rust_dns.State.Toy.{toy_moka, idle}
use rust_dns.Hickory.Toy.{toy_reply}

-- `idle`, with the name of the question blocked.
abbrev pub blocking : AppState toy_moka
blocking = record idle { blocklist = record { exact = text "example" ∷ []; wildcard = [] } }

abbrev pub entry : CachedResponse
entry = record { wire = toy_reply; ttl_secs = 45; expires_unix = 1045 }

abbrev pub key : CacheKey
key = record { name = text "a.example"; rtype = 1 }

abbrev pub warm : AppState toy_moka
warm = record idle { cache = (key, entry, 1000) ∷ [] }

-- A network that answers every datagram alike, and refuses connections.
abbrev pub answers : Result Bytes → Net
answers r = record { udp = λ bind server q. r; tcp = λ server sent. err (io 0) }

abbrev pub env_of : Result Bytes → Flight → Env toy_moka
env_of r flight = record {
  net = answers r;
  now = 1000;
  now_ms = 1_000_000;
  latency_ms = 3;
  meanwhile = λ c. c;
  flight = flight;
}

abbrev pub online : Env toy_moka
online = env_of (ok toy_reply) alone

abbrev pub offline : Env toy_moka
offline = env_of (err (io 0)) alone

abbrev pub question : Query ℕ
question = record { name = 97; query_type = 1; query_class = 1 }

abbrev pub asking : Message ℕ
asking = record {
  metadata = record {
    id = 0x1234;
    message_type = MessageType.query;
    op_code = 0;
    recursion_desired = true;
    recursion_available = true;
    response_code = 0;
  };
  queries = question ∷ [];
  answers = [];
}
