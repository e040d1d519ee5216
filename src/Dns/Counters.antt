-- ===== src/Dns/Counters.antt =====
-- What `handle` does to the counters of `Stats`.
use rust_dns.Result.{panic, Result, Ensures, ok-inj, Ensures-ok, Result-cases}
use rust_dns.Base.{
  ◌+◌, ◌%◌, ◌^◌, Option, ◌≡◌, arith, ◌∙◌, none, some, refl, Option-cases, inl, inr, ap, sym, first?,
}
use rust_dns.Stats.{Stats, incr}
use rust_dns.Text.Unicode.{Unicode}
use rust_dns.Hickory.{Hickory, Message, Query}
use rust_dns.State.{Moka, AppState, Action}
use rust_dns.Dns.{
  count_query, finish_load, serve_blocked, serve_cached, Env, log_query, handle, Served, answer, ok,
  err, serve, after_load, key_of,
}
use rust_dns.Bytes.{Bytes}
use rust_dns.Text.{Text}
use rust_dns.Cache.{CachedResponse}
use rust_dns.Dns.Branches.{serve-Ensures, loaded, handle-Answered}

-- Each query is counted once as a query and once by its outcome.
abbrev pub Balanced : Stats → Type 0
Balanced s =
    (s.blocked + s.cache_hits + s.forwarded + s.upstream_errors) % 2 ^ 64 ≡ s.queries % 2 ^ 64

-- A query that is counted, and its outcome not yet.
abbrev Pending : Stats → Type 0
Pending s =
    (s.blocked + s.cache_hits + s.forwarded + s.upstream_errors + 1) % 2 ^ 64 ≡ s.queries % 2 ^ 64

module _ ⦃u : Unicode⦄ (h : Hickory) (m : Moka) where
  count_query-Pending : (st : AppState m) → Balanced st.stats → Pending (count_query h m st).stats
  unfolding count_query incr
  count_query-Pending st b = omega (arith, b)

  abbrev Settled : AppState m → Served (AppState m) → Type 0
  Settled st s = Balanced s.state.stats × (s.state.stats.dropped ≡ st.stats.dropped)

  finish_load-Settled :
      (request : Message h.Name) (query : Query h.Name) (r : Result CachedResponse)
      (st : AppState m)
      → Pending st.stats
      → Ensures (Settled st) (finish_load h m request query r st)
  unfolding finish_load incr
  finish_load-Settled request query (ok c) st p = (omega (arith, p), refl)
  finish_load-Settled request query (err x) st p = (omega (arith, p), refl)
  finish_load-Settled request query panic st p = tt

  serve_blocked-Settled :
      (request : Message h.Name) (query : Query h.Name) (st : AppState m)
      → Pending st.stats
      → Settled st (serve_blocked h m request query st)
  unfolding serve_blocked incr
  serve_blocked-Settled request query st p = (omega (arith, p), refl)

  serve_cached-Settled :
      (request : Message h.Name) (v : CachedResponse) (st : AppState m)
      → Pending st.stats
      → Settled st (serve_cached h m request v st)
  unfolding serve_cached incr
  serve_cached-Settled request v st p = (omega (arith, p), refl)

  serve-Settled :
      (env : Env m) (wire : Bytes) (request : Message h.Name) (query : Query h.Name)
      (st : AppState m)
      → Pending st.stats
      → Ensures (Settled st) (serve h m env wire request query st)
  serve-Settled env wire request query st p =
      serve-Ensures h m env wire request query st (Settled st)
        (λ _. serve_blocked-Settled request query st p) (λ v _. serve_cached-Settled request v st p)
        (λ _.
          finish_load-Settled request query (loaded h m env wire query st).result
            (after_load h m (key_of h m query) (loaded h m env wire query st) st) p)

  log_query-stats :
      (env : Env m) (client : Option Text) (query : Query h.Name) (action : Action)
      (st : AppState m)
      → (log_query h m env client query action st).stats ≡ st.stats
  unfolding log_query
  log_query-stats env client query action st = elim (Option-cases st.qlog) [
    | inl off ↦ ground (arith, off)
    | inr (held, on) ↦ ground (arith, on)
  ]

  -- A packet that gets no reply leaves the state as it was.
  pub handle-drops :
      (env : Env m) (wire : Bytes) (client : Option Text) (st st' : AppState m)
      → handle h m env wire client st ≡ ok (st', none)
      → st' ≡ st
  unfolding handle answer
  handle-drops env wire client st st' e = elim (Option-cases (h.from_vec wire)) [
    | inl garbage ↦
        let quiet : handle h m env wire client st ≡ ok (st, none) = ground (arith, garbage) in
        ap (λ p. p.0) (ok-inj (sym e ∙ quiet))
    | inr (request, parsed) ↦ elim (Option-cases (first? request.queries)) [
      | inl nothing ↦
          let quiet : handle h m env wire client st ≡ ok (st, none) =
            ground (arith, parsed, nothing) in
          ap (λ p. p.0) (ok-inj (sym e ∙ quiet))
      | inr (query, asked) ↦
          elim (Result-cases (serve h m env wire request query (count_query h m st))) [
            | inl (s, served) ↦ absurd (ground (arith, e, parsed, asked, served))
            | inr (inl (x, failed)) ↦ absurd (ground (arith, e, parsed, asked, failed))
            | inr (inr died) ↦ absurd (ground (arith, e, parsed, asked, died))
          ]
    ]
  ]

  handle-Settled :
      (env : Env m) (wire : Bytes) (client : Option Text) (st st' : AppState m) (out : Option Bytes)
      → Balanced st.stats
      → handle h m env wire client st ≡ ok (st', out)
      → Balanced st'.stats × (st'.stats.dropped ≡ st.stats.dropped)
  unfolding handle
  handle-Settled env wire client st st' none b e =
      rw (handle-drops env wire client st st' e) (b, refl)
  handle-Settled env wire client st st' (some out) b e = elim (Option-cases (h.from_vec wire)) [
    | inl garbage ↦ absurd (ground (arith, garbage, e))
    | inr (request, parsed) ↦
        let a = handle-Answered h m env wire client st st' request out parsed e in
        let (balanced, same) =
          Ensures-ok (Settled (count_query h m st)) _ a.served
            (serve-Settled env wire request a.query (count_query h m st) (count_query-Pending st b))
            a.serves in
        let logged = log_query-stats env client a.query a.served.action a.served.state in
        rw a.state (rw logged (balanced, same ∙ unfold count_query in refl))
  ]

  -- The states that a sequence of packets leads to, whatever each meets.
  pub data Reached (start : AppState m) : AppState m → Type 1 where
    no_packet : Reached start start
    packet :
        {st st' : AppState m} (env : Env m) (wire : Bytes) (client : Option Text)
        (out : Option Bytes)
        → Reached start st
        → handle h m env wire client st ≡ ok (st', out)
        → Reached start st'

  -- After any sequence of packets whose handling returns, the counters of the outcomes sum up to
  -- the counter of queries, modulo 2^64, if they did before; and `dropped` is what it was.
  pub Reached-Balanced :
      (start st : AppState m)
      → Balanced start.stats
      → Reached start st
      → Balanced st.stats × (st.stats.dropped ≡ start.stats.dropped)
  Reached-Balanced start st b no_packet = (b, refl)
  Reached-Balanced start st b (packet env wire client out before e) =
      let (balanced, same) = Reached-Balanced start _ b before in
      let (settled, kept) = handle-Settled env wire client _ st out balanced e in
      (settled, kept ∙ same)
