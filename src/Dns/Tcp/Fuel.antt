-- ===== src/Dns/Tcp/Fuel.antt =====
-- The rounds of a connection's loop are enough for its input.
use rust_dns.Dns.Tcp.Leaks.{conn_of, Next-cases}
use rust_dns.Result.{ok-inj, Result-cases, ok}
use rust_dns.Base.{
  length-drop, ◌-◌, ℕ, zero, suc, ◌+◌, ◌≡◌, ◌<◌, inl, inr, refl, sym, ap, ◌∙◌, Bool, true, false,
  Option, none, some, length, take, drop, arith, Bool-cases, Option-cases, leb,
}
use rust_dns.Upstream.{read_exact}
use rust_dns.Text.Unicode.{Unicode}
use rust_dns.Bytes.{Bytes, from_be_bytes}
use rust_dns.Hickory.{Hickory}
use rust_dns.State.{Moka}
use rust_dns.Text.{Text}
use rust_dns.Dns.Tcp.{send, serve_message, next, loop, tcp_conn, Conn, Turn, again, break}
use rust_dns.Dns.Listen.{try_acquire, release}
use rust_dns.Dns.{handle}

read_exact-length :
    (n : ℕ) (s a rest : Bytes) → read_exact n s ≡ ok (a, rest) → length rest + n ≡ length s
unfolding read_exact
read_exact-length n s a rest e = elim (Bool-cases (leb n (length s))) [
  | inr short ↦ absurd (ground (arith, e, short))
  | inl enough ↦
      let same : (take n s, drop n s) ≡ (a, rest) = ok-inj (sym (rw enough refl) ∙ e) in
      let size : length (drop n s) ≡ length s - n = length-drop n s in
      ground (arith, enough, size, ap (λ p. length p.1) same)
]

module _ ⦃u : Unicode⦄ (h : Hickory) (m : Moka) (client : Text) where
  send-input :
      (written : Bool) (out : Option Bytes) (c : Conn m)
      → (conn_of h m client (send h m written out c)).input ≡ c.input
  unfolding send
  send-input written none c = refl
  send-input true (some out) c = refl
  send-input false (some out) c = refl

  serve_message-input :
      (turn : Turn m) (buf : Bytes) (c : Conn m)
      → (conn_of h m client (serve_message h m turn client buf c)).input ≡ c.input
  unfolding serve_message
  serve_message-input turn buf c = elim (Option-cases (try_acquire m c.state)) [
    | inl full ↦ rw (full, serve_message) refl
    | inr (st, got) ↦ elim (Result-cases (handle h m turn.env buf (some client) st)) [
      | inl ((st', out), handled) ↦
          rw (got, serve_message)
            (rw handled (send-input turn.written out (record c { state = release m st' })))
      | inr (inl (x, failed)) ↦ rw (got, serve_message) (rw failed refl)
      | inr (inr died) ↦ rw (got, serve_message) (rw died refl)
    ]
  ]

  next-shorter :
      (turn : Turn m) (c c' : Conn m)
      → next h m turn client c ≡ again c'
      → length c'.input < length c.input
  unfolding next
  next-shorter turn c c' e = elim (Result-cases (read_exact 2 c.input)) [
    | inl ((len_buf, rest), read) ↦ elim (Result-cases (read_exact (from_be_bytes len_buf) rest)) [
      | inl ((buf, later), whole) ↦
          let served : serve_message h m turn client buf (record c { input = later }) ≡ again c' =
            sym (rw (read, next) (rw whole refl)) ∙ e in
          let same : c'.input ≡ later =
            sym (ap (λ r. (conn_of h m client r).input) served)
            ∙ serve_message-input turn buf (record c { input = later }) in
          let first = read_exact-length 2 c.input len_buf rest read in
          let second = read_exact-length (from_be_bytes len_buf) rest buf later whole in
          rw same (omega (arith, first, second))
      | inr (inl (x, failed)) ↦ absurd (ground (arith, e, read, failed))
      | inr (inr died) ↦ absurd (ground (arith, e, read, died))
    ]
    | inr (inl (x, failed)) ↦ absurd (ground (arith, e, failed))
    | inr (inr died) ↦ absurd (ground (arith, e, died))
  ]

  -- With more rounds than the input has bytes, the number of rounds makes no difference.
  pub loop-fuel :
      (fuel more : ℕ) (turns : ℕ → Turn m) (n : ℕ) (c : Conn m)
      → length c.input < fuel
      → length c.input < more
      → loop h m fuel turns n client c ≡ loop h m more turns n client c
  unfolding loop
  loop-fuel zero more turns n c enough _ = absurd (omega arith)
  loop-fuel (suc fuel) zero turns n c _ enough = absurd (omega arith)
  loop-fuel (suc fuel) (suc more) turns n c enough enough' =
      elim (Next-cases h m client (next h m (turns n) client c)) [
        | inl (c', goes) ↦
            let less = next-shorter (turns n) c c' goes in
            rw (goes, loop) (loop-fuel fuel more turns (suc n) c' (omega arith) (omega arith))
        | inr (c', ends) ↦ rw (ends, loop) refl
      ]

  -- The loop of `tcp_conn` without a bound: rounds that go on, up to one that breaks.
  pub data Ends (turns : ℕ → Turn m) : ℕ → Conn m → Conn m → Type 0 where
    breaks : {n : ℕ} {c c' : Conn m} → next h m (turns n) client c ≡ break c' → Ends turns n c c'
    goes_on :
        {n : ℕ} {c c' c'' : Conn m}
        → next h m (turns n) client c ≡ again c'
        → Ends turns (suc n) c' c''
        → Ends turns n c c''

  loop-Ends :
      (fuel : ℕ) (turns : ℕ → Turn m) (n : ℕ) (c : Conn m)
      → length c.input < fuel
      → Ends turns n c (loop h m fuel turns n client c)
  unfolding loop
  loop-Ends zero turns n c enough = absurd (omega (arith, enough))
  loop-Ends (suc fuel) turns n c enough =
      elim (Next-cases h m client (next h m (turns n) client c)) [
        | inl (c', goes) ↦
            let less = next-shorter (turns n) c c' goes in
            rw (goes, loop)
              (goes_on goes (loop-Ends fuel turns (suc n) c' (omega (arith, less, enough))))
        | inr (c', ends) ↦ rw (ends, loop) (breaks ends)
      ]

  -- On any connection the loop comes to a round that breaks, whatever its messages meet, and what it
  -- has then is the result of `tcp_conn`.
  pub tcp_conn-Ends :
      (turns : ℕ → Turn m) (c : Conn m) → Ends turns 0 c (tcp_conn h m turns client c)
  unfolding tcp_conn
  tcp_conn-Ends turns c = loop-Ends (suc (length c.input)) turns 0 c (omega arith)
