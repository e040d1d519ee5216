-- ===== src/Dns/Tcp/Leaks.antt =====
-- The permits that a connection takes are given back.
use rust_dns.Base.{
  ℕ, zero, suc, ◌≡◌, ◌⊎◌, inl, inr, refl, ap, ◌∙◌, Bool, true, false, Option, none, some, length,
  arith, Option-cases,
}
use rust_dns.Result.{Result-cases}
use rust_dns.Text.Unicode.{Unicode}
use rust_dns.Hickory.{Hickory}
use rust_dns.State.{Moka, AppState}
use rust_dns.Text.{Text}
use rust_dns.Dns.Listen.{inflight-cases, try_acquire, count_dropped, release}
use rust_dns.Dns.Tcp.{Next, send, serve_message, next, loop, tcp_conn, Conn, Turn, again, break}
use rust_dns.Bytes.{Bytes, from_be_bytes}
use rust_dns.Dns.{count_query, handle}
use rust_dns.Dns.Permits.{handle-permits}
use rust_dns.Upstream.{read_exact}

module _ ⦃u : Unicode⦄ (h : Hickory) (m : Moka) (client : Text) where
  abbrev pub conn_of : Next m → Conn m
  conn_of (again c) = c
  conn_of (break c) = c

  try_acquire-inflight :
      (st taken : AppState m) → try_acquire m st ≡ some taken → suc taken.inflight ≡ st.inflight
  unfolding try_acquire
  try_acquire-inflight st taken e = elim (inflight-cases st.inflight) [
    | inl full ↦ absurd (ground (arith, e, full))
    | inr (n, free) ↦ ground (arith, e, free)
  ]

  send-state :
      (written : Bool) (out : Option Bytes) (c : Conn m)
      → (conn_of (send h m written out c)).state ≡ c.state
  unfolding send
  send-state written none c = refl
  send-state true (some out) c = refl
  send-state false (some out) c = refl

  serve_message-permits :
      (turn : Turn m) (buf : Bytes) (c : Conn m)
      → (conn_of (serve_message h m turn client buf c)).state.inflight ≡ c.state.inflight
  unfolding serve_message count_dropped count_query
  serve_message-permits turn buf c = elim (Option-cases (try_acquire m c.state)) [
    | inl full ↦ rw (full, serve_message) refl
    | inr (st, got) ↦
        let one = try_acquire-inflight c.state st got in
        elim (Result-cases (handle h m turn.env buf (some client) st)) [
          | inl ((st', out), handled) ↦
              let kept = handle-permits h m turn.env buf (some client) st st' out handled in
              let sent = send-state turn.written out (record c { state = release m st' }) in
              rw (got, serve_message) (rw handled (ap (λ s. s.inflight) sent ∙ ap suc kept ∙ one))
          | inr (inl (x, failed)) ↦ rw (got, serve_message) (rw failed one)
          | inr (inr died) ↦ rw (got, serve_message) (rw died one)
        ]
  ]

  next-permits :
      (turn : Turn m) (c : Conn m)
      → (conn_of (next h m turn client c)).state.inflight ≡ c.state.inflight
  unfolding next
  next-permits turn c = elim (Result-cases (read_exact 2 c.input)) [
    | inl ((len_buf, rest), read) ↦ elim (Result-cases (read_exact (from_be_bytes len_buf) rest)) [
      | inl ((buf, later), whole) ↦
          rw (read, next) (rw whole (serve_message-permits turn buf (record c { input = later })))
      | inr (inl (x, failed)) ↦ rw (read, next) (rw failed refl)
      | inr (inr died) ↦ rw (read, next) (rw died refl)
    ]
    | inr (inl (x, failed)) ↦ rw (failed, next) refl
    | inr (inr died) ↦ rw (died, next) refl
  ]

  pub Next-cases : (r : Next m) → ((c : Conn m) × (r ≡ again c)) ⊎ ((c : Conn m) × (r ≡ break c))
  Next-cases (again c) = inl (c, refl)
  Next-cases (break c) = inr (c, refl)

  loop-permits :
      (fuel : ℕ) (turns : ℕ → Turn m) (n : ℕ) (c : Conn m)
      → (loop h m fuel turns n client c).state.inflight ≡ c.state.inflight
  unfolding loop
  loop-permits zero turns n c = refl
  loop-permits (suc fuel) turns n c = elim (Next-cases (next h m (turns n) client c)) [
    | inl (c', goes) ↦
        rw (goes, loop) (loop-permits fuel turns (suc n) c' ∙ rw goes at (next-permits (turns n) c))
    | inr (c', ends) ↦ rw (ends, loop) (rw ends at (next-permits (turns n) c))
  ]

  -- However a connection ends (by the peer, a timeout, for want of a permit, or by a panic), as many
  -- permits are free afterwards as before.
  pub tcp_conn-permits :
      (turns : ℕ → Turn m) (c : Conn m)
      → (tcp_conn h m turns client c).state.inflight ≡ c.state.inflight
  unfolding tcp_conn
  tcp_conn-permits turns c = loop-permits (suc (length c.input)) turns 0 c
