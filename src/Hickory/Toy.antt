-- ===== src/Hickory/Toy.antt =====
-- A codec that meets what is asked of hickory_proto, small enough to run in tests: a message of one
-- question, with the id first, then the flag, the code, the name, the type and the TTLs of its answers.
use native.Mathlib.Decide.{ℕ_discrete}
use rust_dns.Base.{
  ℕ, ◌/◌, ◌%◌, true, Option, none, some, List, [], ◌∷◌, map, if◌then◌else◌, ◌==◌, ◌≡◌, some-inj,
  ◌≤◌, refl, length, take, arith,
}
use rust_dns.Bytes.{Bytes, from_be_bytes}
use rust_dns.Hickory.{Message, Query, MessageType, RData, Hickory}
use rust_dns.Text.{text}

abbrev pub toy_type : ℕ → MessageType
toy_type t = if t == 0 then MessageType.query else MessageType.response

abbrev pub toy_flag : MessageType → ℕ
toy_flag MessageType.query = 0
toy_flag MessageType.response = 1

unfoldable pub decode : Bytes → Option (Message ℕ)
unfolding from_be_bytes
decode (x ∷ y ∷ t ∷ c ∷ n ∷ q ∷ ttls) = some (record {
  metadata = record {
    id = from_be_bytes (x ∷ y ∷ []);
    message_type = toy_type t;
    op_code = 0;
    recursion_desired = true;
    recursion_available = true;
    response_code = c;
  };
  queries = (record { name = n; query_type = q; query_class = 1 }) ∷ [];
  answers = map (λ s. record { name = n; ttl = s; rdata = RData.other [] }) ttls;
})
decode _ = none

abbrev pub name_of : List (Query ℕ) → ℕ
name_of [] = 0
name_of (q ∷ qs) = q.name

abbrev pub type_of : List (Query ℕ) → ℕ
type_of [] = 0
type_of (q ∷ qs) = q.query_type

-- The bytes of a message that `decode` reads back; other messages are refused.
unfoldable pub encode : Message ℕ → Bytes
encode m =
    (m.metadata.id / 256)
    ∷ (m.metadata.id % 256)
    ∷ toy_flag m.metadata.message_type
    ∷ m.metadata.response_code
    ∷ name_of m.queries
    ∷ type_of m.queries
    ∷ map (λ r. r.ttl) m.answers

unfoldable pub messages_discrete : Discrete (Option (Message ℕ))
unfolding ℕ_discrete
messages_discrete = hlevel ℕ_discrete

abbrev pub checked : (m : Message ℕ) (b : Bytes) → Dec (decode b ≡ some m) → Option Bytes
checked m b (yes e) = some b
checked m b (no n) = none

unfoldable pub try_encode : Message ℕ → Option Bytes
unfolding decode encode messages_discrete
try_encode m = checked m (encode m) (messages_discrete (decode (encode m)) (some m))

checked-eq :
    (m : Message ℕ) (b c : Bytes) (d : Dec (decode b ≡ some m))
    → checked m b d ≡ some c
    → decode c ≡ some m
checked-eq m b c (yes e) h = let same : b ≡ c = some-inj h in rw (← same) e
checked-eq m b c (no n) h = cc

pub decode-try_encode : (m : Message ℕ) (b : Bytes) → try_encode m ≡ some b → decode b ≡ some m
decode-try_encode m b h =
    checked-eq m (encode m) b (messages_discrete (decode (encode m)) (some m))
      (unfold try_encode in h)

pub decode-id :
    (b : Bytes) (m : Message ℕ)
    → decode b ≡ some m
    → (2 ≤ length b) × (m.metadata.id ≡ from_be_bytes (take 2 b))
unfolding decode
decode-id (x ∷ y ∷ t ∷ c ∷ n ∷ q ∷ ttls) m h = ground (arith, h)
decode-id [] m h = cc
decode-id (x ∷ []) m h = cc
decode-id (x ∷ y ∷ []) m h = cc
decode-id (x ∷ y ∷ t ∷ []) m h = cc
decode-id (x ∷ y ∷ t ∷ c ∷ []) m h = cc
decode-id (x ∷ y ∷ t ∷ c ∷ n ∷ []) m h = cc

abbrev pub toy : Hickory
toy = record {
  Name = ℕ;
  name_eq = λ a b. a == b;
  name_text = λ n. n ∷ text ".Example.";
  type_text = λ t. t ∷ [];
  from_vec = decode;
  to_vec = try_encode;
  id_first = decode-id;
  from_vec-to_vec = decode-try_encode;
}

-- A reply to the question for name 97 of type 1, with id 0x1234 and two answers.
abbrev pub toy_query : Bytes
toy_query = 0x12 ∷ 0x34 ∷ 0 ∷ 0 ∷ 97 ∷ 1 ∷ []

abbrev pub toy_reply : Bytes
toy_reply = 0x12 ∷ 0x34 ∷ 1 ∷ 0 ∷ 97 ∷ 1 ∷ 90 ∷ 45 ∷ []

reencoded :
    try_encode (record {
      metadata = record {
        id = 0x1234;
        message_type = MessageType.response;
        op_code = 0;
        recursion_desired = true;
        recursion_available = true;
        response_code = 0;
      };
      queries = (record { name = 97; query_type = 1; query_class = 1 }) ∷ [];
      answers = [];
    })
    ≡ some (0x12 ∷ 0x34 ∷ 1 ∷ 0 ∷ 97 ∷ 1 ∷ [])
unfolding try_encode ℕ_discrete
reencoded = refl
