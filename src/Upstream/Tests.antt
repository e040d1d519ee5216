-- ===== src/Upstream/Tests.antt =====
-- The tests of src/upstream.rs, and its theorems at a concrete network.
use rust_dns.Base.{
  ◌↔◌, ℕ, ◌+◌, ◌%◌, ◌^◌, ◌≡◌, ◌≤◌, inl, refl, true, some, [], ◌∷◌, arith, if◌then◌else◌, here,
  there, max,
}
use rust_dns.Result.{ok, err, panic, io}
use rust_dns.Hickory.{RData, Answer, Message, MessageType}
use rust_dns.Hickory.Toy.{decode, toy_reply, toy_query, toy}
use rust_dns.Upstream.{
  SocketAddr, Net, Upstream, query_udp, valid_response, resolve, effective_ttl, v4, v6, is_ipv4,
}
use rust_dns.Cache.{CachedResponse}
use rust_dns.Upstream.Resolve.{Accepted, resolve_sound, resolve_complete, resolve-panics}
use rust_dns.Upstream.Ttl.{effective_ttl-le-answer}
use rust_dns.Bytes.{from_be_bytes}
use rust_dns.Upstream.Reply.{IsAnswer, valid_response_iff}

abbrev down : SocketAddr
down = v4 0x01010101 53

abbrev alive : SocketAddr
alive = v6 1 53

-- Servers with IPv4 addresses time out, the others answer.
abbrev half : Net
half = record {
  udp = λ bind server q. if is_ipv4 server then err (io 0) else ok toy_reply;
  tcp = λ server sent. err (io 0);
}

abbrev up : Upstream
up = record {
  servers = down ∷ alive ∷ [];
  timeout = 2000;
  qps = 2000;
  permits = 256;
  min_ttl = 30;
  max_ttl = 86_400;
  negative_ttl = 60;
}

abbrev reversed : Upstream
reversed = record up { min_ttl = 86_400; max_ttl = 30 }

abbrev nobody : Upstream
nobody = record up { servers = down ∷ [] }

abbrev entry : CachedResponse
entry = record { wire = toy_reply; ttl_secs = 45; expires_unix = 1045 }

fails : query_udp half down toy_query ≡ err (io 0)
unfolding query_udp
fails = refl

replies : query_udp half alive toy_query ≡ ok toy_reply
unfolding query_udp
replies = refl

good : valid_response toy toy_query toy_reply ≡ true
unfolding valid_response decode
good = refl

abbrev accepted : Accepted toy half up 1000 toy_query (down ∷ alive ∷ []) toy_reply
accepted = record {
  before = down ∷ [];
  server = alive;
  after = [];
  split = refl;
  rejected = (inl (io 0, fails), tt);
  reply = replies;
  valid = good;
}

abbrev accepted_reversed : Accepted toy half reversed 1000 toy_query (down ∷ alive ∷ []) toy_reply
accepted_reversed = record {
  before = down ∷ [];
  server = alive;
  after = [];
  split = refl;
  rejected = (inl (io 0, fails), tt);
  reply = replies;
  valid = good;
}

abbrev shortest : Answer ℕ
shortest = record { name = 97; ttl = 45; rdata = RData.other [] }

abbrev message : Message ℕ
message = record {
  metadata = record {
    id = 0x1234;
    message_type = MessageType.response;
    op_code = 0;
    recursion_desired = true;
    recursion_available = true;
    response_code = 0;
  };
  queries = (record { name = 97; query_type = 1; query_class = 1 }) ∷ [];
  answers = (record shortest { ttl = 90 }) ∷ shortest ∷ [];
}

parsed : toy.from_vec toy_reply ≡ some message
unfolding decode from_be_bytes
parsed = refl

resolved : resolve toy half up 1000 toy_query ≡ ok entry
unfolding resolve decode
resolved = refl

-- The least TTL of the answers, 45.
least : effective_ttl toy up toy_reply ≡ ok 45
unfolding effective_ttl decode
least = refl

resolve_sound_example :
    Accepted toy half up 1000 toy_query (down ∷ alive ∷ []) toy_reply
    × (effective_ttl toy up toy_reply ≡ ok 45)
    × (1045 ≡ (1000 + 45) % 2 ^ 64)
    × (30 ≤ 45)
    × (45 ≤ 86_400)
resolve_sound_example = resolve_sound toy half up 1000 toy_query entry resolved

resolve_complete_example :
    (c : CachedResponse) × (resolve toy half up 1000 toy_query ≡ ok c) × (c.wire ≡ toy_reply)
resolve_complete_example =
    resolve_complete toy half up 1000 toy_query toy_reply (ground arith) accepted

resolve-panics_example : resolve toy half reversed 1000 toy_query ≡ panic
resolve-panics_example =
    resolve-panics toy half reversed 1000 toy_query toy_reply (ground arith) accepted_reversed

effective_ttl-le-answer_example : 45 ≤ max 30 45
effective_ttl-le-answer_example =
    effective_ttl-le-answer toy up toy_reply message shortest 45 parsed (ground arith)
      (there (here refl)) least

valid_response_iff_example :
    (valid_response toy toy_query toy_reply ≡ true) ↔ IsAnswer toy toy_query toy_reply
valid_response_iff_example = valid_response_iff toy toy_query toy_reply
