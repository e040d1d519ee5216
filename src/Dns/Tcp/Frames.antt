-- ===== src/Dns/Tcp/Frames.antt =====
-- What a connection replies to a sequence of messages.
use rust_dns.Base.{
  append-nil, ℕ, zero, suc, ◌+◌, ◌%◌, ◌^◌, ◌≡◌, ◌≤◌, ◌<◌, ◌⊎◌, inl, inr, refl, sym, ap, ◌∙◌, true,
  Option, none, some, List, [], ◌∷◌, ◌++◌, length, take, drop, arith, Option-cases, some-inj, leb,
  All, length-append, take_prefix, drop_prefix, append_assoc,
}
use rust_dns.Result.{ok, err, panic, Result-cases}
use rust_dns.Bytes.{
  length-to_be_bytes, from_be_bytes-to_be_bytes, Bytes, from_be_bytes, to_be_bytes,
}
use rust_dns.Upstream.{read_exact}
use rust_dns.Dns.Tcp.{frame, Turn, loop, tcp_conn, next, serve_message, send, break, Conn, again}
use rust_dns.Text.Unicode.{Unicode}
use rust_dns.Hickory.{Hickory}
use rust_dns.State.{Moka, AppState}
use rust_dns.Text.{Text}
use rust_dns.Dns.Listen.{try_acquire, release}
use rust_dns.Dns.{handle}

-- The messages as the peer sends them.
abbrev pub frames : List Bytes → Bytes
frames [] = []
frames (q ∷ qs) = frame q ++ frames qs

abbrev pub Short : Bytes → Type 0
Short q = length q < 2 ^ 16

-- What is left holds no whole message.
abbrev pub Incomplete : Bytes → Type 0
Incomplete tail = (length tail < 2) ⊎ (length (drop 2 tail) < from_be_bytes (take 2 tail))

read_exact_prefix :
    (xs rest : Bytes) (n : ℕ) → length xs ≡ n → read_exact n (xs ++ rest) ≡ ok (xs, rest)
unfolding read_exact
read_exact_prefix xs rest n e =
    let enough : leb (length xs) (length (xs ++ rest)) ≡ true =
      ground (arith, length-append xs rest) in
    rw (← e) (rw (enough, take_prefix xs rest, drop_prefix xs rest) refl)

length-frame : (q : Bytes) → length (frame q) ≡ 2 + length q
unfolding frame
length-frame q = omega (
  arith,
  length-append (to_be_bytes 2 (length q % 2 ^ 16)) q,
  length-to_be_bytes 2 (length q % 2 ^ 16),
)

length-frames : (qs : List Bytes) (tail : Bytes) → length qs ≤ length (frames qs ++ tail)
length-frames [] tail = omega arith
length-frames (q ∷ qs) tail = omega (
  arith,
  length-append (frame q ++ frames qs) tail,
  length-append (frames qs) tail,
  length-append (frame q) (frames qs),
  length-frame q,
  length-frames qs tail,
)

module _ ⦃u : Unicode⦄ (h : Hickory) (m : Moka) (turns : ℕ → Turn m) (client : Text) where
  abbrev pub framed : Option Bytes → Bytes
  framed none = []
  framed (some out) = frame out

  -- The messages handled one after the other, each with a permit: the state afterwards and the frames
  -- of the replies. `none` if a permit is missing or `handle` panics.
  unfoldable pub serve_each : ℕ → List Bytes → AppState m → Option (AppState m × Bytes)
  serve_each n [] st = some (st, [])
  serve_each n (q ∷ qs) st = elim (try_acquire m st) [
    | none ↦ none
    | some taken ↦ elim (handle h m (turns n).env q (some client) taken) [
      | ok (st', out) ↦ elim (serve_each (suc n) qs (release m st')) [
        | none ↦ none
        | some (last, more) ↦ some (last, framed out ++ more)
      ]
      | err e ↦ none
      | panic ↦ none
    ]
  ]

  next-frame :
      (turn : Turn m) (st : AppState m) (q rest out : Bytes)
      → Short q
      → next h m turn client (record { state = st; input = frame q ++ rest; output = out })
        ≡ serve_message h m turn client q (record { state = st; input = rest; output = out })
  unfolding next frame
  next-frame turn st q rest out short =
      let len = length q % 2 ^ 16 in
      let size : from_be_bytes (to_be_bytes 2 len) ≡ length q =
        omega (arith, from_be_bytes-to_be_bytes 2 len (omega arith)) in
      rw (append_assoc (to_be_bytes 2 len) q rest, next)
        (rw (read_exact_prefix (to_be_bytes 2 len) (q ++ rest) 2 (length-to_be_bytes 2 len))
          (rw size (rw (read_exact_prefix q rest (length q) refl) refl)))

  next-Incomplete :
      (turn : Turn m) (st : AppState m) (tail out : Bytes)
      → Incomplete tail
      → next h m turn client (record { state = st; input = tail; output = out })
        ≡ break (record { state = st; input = tail; output = out })
  unfolding next read_exact
  next-Incomplete turn st tail out (inl short) = ground arith
  next-Incomplete turn st tail out (inr cut) = ground arith

  -- The first of the messages, and the others.
  record First (n : ℕ) (q : Bytes) (qs : List Bytes) (st last : AppState m) (replies : Bytes)
      : Type 0 where
    taken : AppState m
    acquired : try_acquire m st ≡ some taken
    after : AppState m
    out : Option Bytes
    handled : handle h m (turns n).env q (some client) taken ≡ ok (after, out)
    more : Bytes
    others : serve_each (suc n) qs (release m after) ≡ some (last, more)
    joined_up : replies ≡ framed out ++ more

  serve_each-First :
      (n : ℕ) (q : Bytes) (qs : List Bytes) (st last : AppState m) (replies : Bytes)
      → serve_each n (q ∷ qs) st ≡ some (last, replies)
      → First n q qs st last replies
  unfolding serve_each
  serve_each-First n q qs st last replies e = elim (Option-cases (try_acquire m st)) [
    | inl full ↦ absurd (ground (arith, e, full))
    | inr (taken, got) ↦ elim (Result-cases (handle h m (turns n).env q (some client) taken)) [
      | inl ((after, out), handled) ↦
          elim (Option-cases (serve_each (suc n) qs (release m after))) [
            | inl failed ↦ absurd (ground (arith, e, got, handled, failed))
            | inr ((end, more), others) ↦
                let same : (end, framed out ++ more) ≡ (last, replies) =
                  some-inj (sym (rw (got, serve_each) (rw handled (rw others refl))) ∙ e) in
                record {
                  taken = taken;
                  acquired = got;
                  after = after;
                  out = out;
                  handled = handled;
                  more = more;
                  others = rw (ap (λ p. p.0) same) at others;
                  joined_up = sym (ap (λ p. p.1) same);
                }
          ]
      | inr (inl (x, failed)) ↦ absurd (ground (arith, e, got, failed))
      | inr (inr died) ↦ absurd (ground (arith, e, got, died))
    ]
  ]

  send-framed :
      (out : Option Bytes) (c : Conn m)
      → send h m true out c ≡ again (record c { output = c.output ++ framed out })
  unfolding send
  send-framed none c = rw (append-nil c.output) refl
  send-framed (some out) c = refl

  next-First :
      (n : ℕ) (q : Bytes) (qs : List Bytes) (st last : AppState m) (replies rest before : Bytes)
      → Short q
      → (turns n).written ≡ true
      → (f : First n q qs st last replies)
      → next h m (turns n) client (record { state = st; input = frame q ++ rest; output = before })
        ≡ again
            (record { state = release m f.after; input = rest; output = before ++ framed f.out })
  unfolding serve_message
  next-First n q qs st last replies rest before short written f =
      next-frame (turns n) st q rest before short
      ∙ rw (f.acquired, serve_message) (rw (f.handled) (rw written (send-framed f.out _)))

  serve_each_end :
      (n : ℕ) (st last : AppState m) (replies : Bytes)
      → serve_each n [] st ≡ some (last, replies)
      → (st ≡ last) × (replies ≡ [])
  unfolding serve_each
  serve_each_end n st last replies e = (cc, cc)

  loop-frames :
      (qs : List Bytes) (n fuel : ℕ) (st last : AppState m) (tail before replies : Bytes)
      → All Short qs
      → Incomplete tail
      → ((k : ℕ) → (turns k).written ≡ true)
      → length qs < fuel
      → serve_each n qs st ≡ some (last, replies)
      → loop h m fuel turns n client
          (record { state = st; input = frames qs ++ tail; output = before })
        ≡ record { state = last; input = tail; output = before ++ replies }
  unfolding loop
  loop-frames qs n zero st last tail before replies short end written enough served =
      absurd (omega arith)
  loop-frames [] n (suc fuel) st last tail before replies short end written enough served =
      let stop = next-Incomplete (turns n) st tail before end in
      let (same, nothing) = serve_each_end n st last replies served in
      rw (stop, loop) (rw (nothing, append-nil before, same) refl)
  loop-frames (q ∷ qs) n (suc fuel) st last tail before replies (s, short) end written enough
        served =
      let f = serve_each-First n q qs st last replies served in
      let step = next-First n q qs st last replies (frames qs ++ tail) before s (written n) f in
      rw (append_assoc (frame q) (frames qs) tail) (
        rw (step, loop)
          (loop-frames qs (suc n) fuel (release m f.after) last tail (before ++ framed f.out) f.more
              short end written (omega arith) f.others
            ∙ rw (f.joined_up, append_assoc before (framed f.out) f.more) refl))

  -- A peer that sends messages shorter than 2^16 bytes, and then nothing that makes a whole message,
  -- gets the frames of the replies in the order of its messages and nothing else, if each reply can be
  -- written, each message finds a permit, and none panics.
  pub tcp_conn-frames :
      (qs : List Bytes) (st last : AppState m) (tail replies : Bytes)
      → All Short qs
      → Incomplete tail
      → ((k : ℕ) → (turns k).written ≡ true)
      → serve_each 0 qs st ≡ some (last, replies)
      → tcp_conn h m turns client (record { state = st; input = frames qs ++ tail; output = [] })
        ≡ record { state = last; input = tail; output = replies }
  unfolding tcp_conn
  tcp_conn-frames qs st last tail replies short end written served =
      loop-frames qs 0 (suc (length (frames qs ++ tail))) st last tail [] replies short end written
        (omega (arith, length-frames qs tail)) served
