-- ===== src/Dns/Tcp.antt =====
-- src/dns.rs: `tcp_conn`, the loop over the messages of one connection.
pub mod Frames
pub mod Leaks
pub mod Fuel
use rust_dns.Base.{
  ℕ, zero, suc, ◌+◌, ◌*◌, ◌/◌, ◌%◌, ◌^◌, ◌≡◌, ◌≤◌, ◌<◌, ◌⊎◌, inl, inr, refl, sym, ap, ◌∙◌, Bool,
  true, false, Option, none, some, List, [], ◌∷◌, ◌++◌, length, take, drop, first?, arith,
  Bool-cases, Option-cases, some-inj, if◌then◌else◌, ◌==◌, ltb, leb, In, here, there, All, ◌&&◌,
  map,
}
use rust_dns.Result.{Result, ok, err, panic}
use rust_dns.State.{Moka, AppState}
use rust_dns.Bytes.{Bytes, to_be_bytes, from_be_bytes}
use rust_dns.Text.Unicode.{Unicode}
use rust_dns.Dns.{Env, handle, count_query}
use rust_dns.Hickory.{Hickory}
use rust_dns.Text.{Text}
use rust_dns.Dns.Listen.{try_acquire, count_dropped, release}
use rust_dns.Upstream.{read_exact}

module _ (m : Moka) where
  -- A connection: what the peer still sends before it closes or stalls, and what it was sent.
  pub record Conn : Type 0 where
    pub state : AppState m
    pub input : Bytes
    pub output : Bytes

  -- What one message meets, and whether its reply can be written in time.
  pub record Turn : Type 0 where
    pub env : Env m
    pub written : Bool

  -- The loop goes on, or breaks.
  pub data Next : Type 0 where
    again : Conn → Next
    break : Conn → Next

unfoldable pub frame : Bytes → Bytes
frame out = to_be_bytes 2 (length out % 2 ^ 16) ++ out

module _ ⦃u : Unicode⦄ (h : Hickory) (m : Moka) where
  unfoldable pub send : Bool → Option Bytes → Conn m → Next m
  unfolding frame
  send written none c = again c
  send true (some out) c = again (record c { output = c.output ++ frame out })
  send false (some out) c = break c

  -- A message was read. Its permit is dropped also if `handle` panics, which ends the connection.
  unfoldable pub serve_message : Turn m → Text → Bytes → Conn m → Next m
  serve_message turn client buf c = elim (try_acquire m c.state) [
    | none ↦ break (record c { state = count_dropped m c.state })
    | some st ↦ elim (handle h m turn.env buf (some client) st) [
      | ok (st', out) ↦ send turn.written out (record c { state = release m st' })
      | err e ↦ break (record c { state = release m st })
      | panic ↦ break (record c { state = release m (count_query h m st) })
    ]
  ]

  unfoldable pub next : Turn m → Text → Conn m → Next m
  next turn client c = elim (read_exact 2 c.input) [
    | ok (len_buf, rest) ↦ elim (read_exact (from_be_bytes len_buf) rest) [
      | ok (buf, later) ↦ serve_message turn client buf (record c { input = later })
      | err e ↦ break c
      | panic ↦ break c
    ]
    | err e ↦ break c
    | panic ↦ break c
  ]

  -- `turns n` is what the n-th message meets.
  unfoldable pub loop : ℕ → (ℕ → Turn m) → ℕ → Text → Conn m → Conn m
  loop zero turns n client c = c
  loop (suc fuel) turns n client c = elim (next (turns n) client c) [
    | again c' ↦ loop fuel turns (suc n) client c'
    | break c' ↦ c'
  ]

  -- A round takes two bytes of the input at least, so that more rounds are never needed.
  unfoldable pub tcp_conn : (ℕ → Turn m) → Text → Conn m → Conn m
  unfolding loop
  tcp_conn turns client c = loop (suc (length c.input)) turns 0 client c
