-- ===== src/Upstream.antt =====
-- src/upstream.rs: forwarding to the upstream resolvers. The sockets are a parameter. The semaphore
-- and the rate limiter only delay a call: neither is ever closed.
pub mod Ttl
pub mod Resolve
pub mod Reply
mod Tests
use Prim.Native.Nat.{bit_and}
use rust_dns.Base.{
  ℕ, zero, suc, ◌+◌, ◌%◌, ◌^◌, ◌≡◌, Bool, true, false, ◌&&◌, ◌||◌, not, Option, none, some, List,
  [], ◌∷◌, ◌++◌, map, length, take, drop, first?, is_empty, max, min, ltb, leb, ◌==◌, if◌then◌else◌,
}
use rust_dns.Bytes.{Bytes, to_be_bytes, from_be_bytes}
use rust_dns.Cache.{CachedResponse}
use rust_dns.Hickory.{Hickory, Message, Query, Answer, MessageType, nx_domain}
use rust_dns.Result.{Result, Error, ok, err, panic, io, no_servers, unreachable, mismatch, ◌>>=◌}
use rust_dns.Text.{Text, text}

-- An address and a port.
pub data SocketAddr : Type 0 where
  v4 : ℕ → ℕ → SocketAddr
  v6 : ℕ → ℕ → SocketAddr

unfoldable pub is_ipv4 : SocketAddr → Bool
is_ipv4 (v4 a p) = true
is_ipv4 (v6 a p) = false

-- `udp bind server query` is the datagram that comes back in time; `tcp server sent` is what the peer
-- sends on a connection, up to its end or to the timeout, once it was sent `sent`.
pub record Net : Type 0 where
  pub udp : Text → SocketAddr → Bytes → Result Bytes
  pub tcp : SocketAddr → Bytes → Result Bytes

pub record UpstreamConfig : Type 0 where
  pub servers : List Text
  pub timeout_ms : ℕ
  pub max_concurrent : ℕ
  pub max_qps : ℕ

pub record Upstream : Type 0 where
  pub servers : List SocketAddr
  pub timeout : ℕ
  pub qps : ℕ
  pub permits : ℕ
  pub min_ttl : ℕ
  pub max_ttl : ℕ
  pub negative_ttl : ℕ

unfoldable pub new : UpstreamConfig → List SocketAddr → ℕ → ℕ → ℕ → Upstream
new cfg servers min_ttl max_ttl negative_ttl = record {
  servers = servers;
  timeout = cfg.timeout_ms;
  qps = max cfg.max_qps 1;
  permits = max cfg.max_concurrent 1;
  min_ttl = min_ttl;
  max_ttl = max_ttl;
  negative_ttl = negative_ttl;
}

unfoldable pub set_servers : List SocketAddr → Upstream → Upstream
set_servers servers up = record up { servers = servers }

-- `read_exact`: the bytes and what follows them, or an error if the stream ends before.
unfoldable pub read_exact : ℕ → Bytes → Result (Bytes × Bytes)
read_exact n stream =
    if leb n (length stream) then ok (take n stream, drop n stream) else err (io 0)

unfoldable pub query_tcp : Net → SocketAddr → Bytes → Result Bytes
unfolding read_exact
query_tcp net server query = do
  stream ← net.tcp server (to_be_bytes 2 (length query % 2 ^ 16) ++ query)
  (len_buf, rest) ← read_exact 2 stream
  (buf, _) ← read_exact (from_be_bytes len_buf) rest
  ok buf

-- `buf[2] & 0x02`, the bit TC.
unfoldable pub truncated : Bytes → Bool
truncated (a ∷ b ∷ c ∷ rest) = not (bit_and c 2 == 0)
truncated _ = false

unfoldable pub query_udp : Net → SocketAddr → Bytes → Result Bytes
unfolding truncated query_tcp is_ipv4
query_udp net server query = do
  datagram ← net.udp (if is_ipv4 server then text "0.0.0.0:0" else text "[::]:0") server query
  let buf = take 4096 datagram
  if truncated buf then query_tcp net server query else ok buf

abbrev pub is_response : MessageType → Bool
is_response MessageType.query = false
is_response MessageType.response = true

-- `clamp` panics on an empty range.
unfoldable pub clamp : ℕ → ℕ → ℕ → Result ℕ
clamp lo hi x =
    if leb lo hi then ok (if ltb x lo then lo else if ltb hi x then hi else x) else panic

unfoldable pub minimum : List ℕ → Option ℕ
minimum [] = none
minimum (x ∷ xs) = elim (minimum xs) [ none ↦ some x | some y ↦ some (min x y) ]

abbrev pub unwrap_or {ℓ} : {A : Type ℓ} → Option A → A → A
unwrap_or none d = d
unwrap_or (some a) d = a

module _ (h : Hickory) where
  -- The seconds before clamping.
  unfoldable pub answer_ttl : Upstream → Option (Message h.Name) → ℕ
  unfolding minimum
  answer_ttl up none = up.negative_ttl
  answer_ttl up (some msg) =
      if msg.metadata.response_code == nx_domain || is_empty msg.answers
      then up.negative_ttl
      else unwrap_or (minimum (map (λ r. r.ttl) msg.answers)) up.negative_ttl

  unfoldable pub effective_ttl : Upstream → Bytes → Result ℕ
  unfolding answer_ttl clamp
  effective_ttl up wire = clamp up.min_ttl up.max_ttl (answer_ttl up (h.from_vec wire))

  unfoldable pub to_cached : Upstream → ℕ → Bytes → Result CachedResponse
  unfolding effective_ttl
  to_cached up now wire = do
    ttl ← effective_ttl up wire
    ok (record { wire = wire; ttl_secs = ttl; expires_unix = (now + ttl) % 2 ^ 64 })

  unfoldable pub same_question : Option (Query h.Name) → Option (Query h.Name) → Bool
  same_question (some qq) (some rq) =
      h.name_eq qq.name rq.name
      && qq.query_type == rq.query_type
      && qq.query_class == rq.query_class
  same_question _ _ = false

  unfoldable pub valid_messages : Option (Message h.Name) → Option (Message h.Name) → Bool
  unfolding same_question
  valid_messages (some q) (some r) =
      if not (is_response r.metadata.message_type) || not (r.metadata.id == q.metadata.id)
      then false
      else same_question (first? q.queries) (first? r.queries)
  valid_messages _ _ = false

  unfoldable pub valid_response : Bytes → Bytes → Bool
  unfolding valid_messages
  valid_response query resp = valid_messages (h.from_vec query) (h.from_vec resp)

  -- The loop over the servers; `last` is the error of the server before.
  unfoldable pub resolve_loop :
      Net → Upstream → ℕ → Bytes → List SocketAddr → Error → Result CachedResponse
  unfolding query_udp valid_response to_cached
  resolve_loop net up now query [] last = err last
  resolve_loop net up now query (server ∷ servers) last = elim (query_udp net server query) [
    | ok wire ↦ elim (valid_response query wire) [
      | true ↦ to_cached up now wire
      | false ↦ resolve_loop net up now query servers mismatch
    ]
    | err e ↦ resolve_loop net up now query servers e
    | panic ↦ panic
  ]

  unfoldable pub resolve : Net → Upstream → ℕ → Bytes → Result CachedResponse
  unfolding resolve_loop
  resolve net up now query =
      if is_empty up.servers
      then err no_servers
      else resolve_loop net up now query up.servers unreachable
