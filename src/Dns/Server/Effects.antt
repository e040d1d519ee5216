-- ===== src/Dns/Server/Effects.antt =====
-- What the two parts of `handle` do to the counters, the permits and the channels.
use rust_dns.Base.{
  ℕ, suc, ◌+◌, ◌%◌, ◌^◌, ◌≡◌, ◌≤◌, inl, inr, Option, none, some, List, [], ◌∷◌, length, first?,
  arith, Bool-cases, Option-cases, ltb, length-append,
}
use rust_dns.Result.{Result, ok, err, panic}
use rust_dns.Dns.Server.{
  ignored, answered, loading, Begun, begin_query, begin, complete, Load, load_of,
}
use rust_dns.Text.Unicode.{Unicode}
use rust_dns.Stats.{Stats, incr}
use rust_dns.State.{
  LogRecord, try_send, log_channel_cap, Moka, AppState, persist_channel_cap, Loaded, Action,
}
use rust_dns.Hickory.{Hickory, Message, Query}
use rust_dns.Dns.{
  log_with, count_query, serve_blocked, serve_cached, Env, persisted, after_load, query_name,
  key_of, Served, finish_load,
}
use rust_dns.Cache.{CacheKey, CachedResponse}
use rust_dns.Config.{Config}
use rust_dns.Bytes.{Bytes}
use rust_dns.Text.{Text}
use rust_dns.Blocklist.{is_blocked}

-- `n` queries are counted whose outcome is not.
abbrev pub Counted : ℕ → Stats → Type 0
Counted n s =
    (s.blocked + s.cache_hits + s.forwarded + s.upstream_errors + n) % 2 ^ 64 ≡ s.queries % 2 ^ 64

abbrev pub LogBound : Option (List LogRecord) → Type 0
LogBound none = Unit
LogBound (some held) = length held ≤ log_channel_cap

pub length-try_send {ℓ} :
    {A : Type ℓ} (cap : ℕ) (a : A) (held : List A)
    → length held ≤ cap
    → length (try_send cap a held) ≤ cap
unfolding try_send
length-try_send cap a held l =
    let grown = length-append held (a ∷ []) in
    elim (Bool-cases (ltb (length held) cap)) [
      | inl room ↦ rw (room, try_send) (ground (arith, room, grown))
      | inr full ↦ rw (full, try_send) l
    ]

module _ ⦃u : Unicode⦄ (h : Hickory) (m : Moka) where
  -- `n` outcomes are missing, the permits are as they were, and the channels hold no more than they may.
  pub record Keeps (n free : ℕ) (st : AppState m) : Type 0 where
    pub counted : Counted n st.stats
    pub permits : st.inflight ≡ free
    pub persist : length st.persist ≤ persist_channel_cap
    pub log : LogBound st.qlog

  log_with-Keeps :
      (cfg : Config) (env : Env m) (client : Option Text) (query : Query h.Name) (action : Action)
      (n free : ℕ) (st : AppState m)
      → Keeps n free st
      → Keeps n free (log_with h m cfg env client query action st)
  unfolding log_with
  log_with-Keeps cfg env client query action n free st k = elim (Option-cases st.qlog) [
    | inl off ↦ rw (off, log_with) k
    | inr (held, on) ↦
        rw (on, log_with)
          (record {
            counted = k.counted;
            permits = k.permits;
            persist = k.persist;
            log = length-try_send log_channel_cap _ held (rw on at k.log);
          })
  ]

  -- After the first part of a query.
  abbrev pub Begins : ℕ → ℕ → Begun (AppState m) h.Name → Type 0
  Begins n free ignored = Unit
  Begins n free (answered st out) = Keeps n free st
  Begins n free (loading st l) = Keeps (suc n) free st

  count_query-Keeps :
      (n free : ℕ) (st : AppState m) → Keeps n free st → Keeps (suc n) free (count_query h m st)
  unfolding count_query incr
  count_query-Keeps n free st k = record {
    counted = omega (arith, k.counted);
    permits = k.permits;
    persist = k.persist;
    log = k.log;
  }

  serve_blocked-Keeps :
      (request : Message h.Name) (query : Query h.Name) (n free : ℕ) (st : AppState m)
      → Keeps (suc n) free st
      → Keeps n free (serve_blocked h m request query st).state
  unfolding serve_blocked incr
  serve_blocked-Keeps request query n free st k = record {
    counted = omega (arith, k.counted);
    permits = k.permits;
    persist = k.persist;
    log = k.log;
  }

  serve_cached-Keeps :
      (request : Message h.Name) (v : CachedResponse) (n free : ℕ) (st : AppState m)
      → Keeps (suc n) free st
      → Keeps n free (serve_cached h m request v st).state
  unfolding serve_cached incr
  serve_cached-Keeps request v n free st k = record {
    counted = omega (arith, k.counted);
    permits = k.permits;
    persist = k.persist;
    log = k.log;
  }

  begin_query-Begins :
      (env : Env m) (wire : Bytes) (client : Option Text) (request : Message h.Name)
      (query : Query h.Name) (n free : ℕ) (st : AppState m)
      → Keeps (suc n) free st
      → Begins n free (begin_query h m env wire client request query st)
  unfolding begin_query
  begin_query-Begins env wire client request query n free st k =
      elim (Bool-cases (is_blocked st.blocklist (query_name h m query))) [
        | inl listed ↦
            rw (listed, begin_query)
              (log_with-Keeps st.config env client query _ n free _
                (serve_blocked-Keeps request query n free st k))
        | inr free_name ↦ elim (Option-cases (m.get env.now (key_of h m query) st.cache)) [
          | inl missing ↦ rw (free_name, begin_query) (rw missing k)
          | inr (v, found) ↦
              rw (free_name, begin_query)
                (rw found (
                  log_with-Keeps st.config env client query _ n free _
                    (serve_cached-Keeps request v n free st k)))
        ]
      ]

  pub begin-Begins :
      (env : Env m) (wire : Bytes) (client : Option Text) (n free : ℕ) (st : AppState m)
      → Keeps n free st
      → Begins n free (begin h m env wire client st)
  unfolding begin
  begin-Begins env wire client n free st k = elim (Option-cases (h.from_vec wire)) [
    | inl garbage ↦ rw (garbage, begin) tt
    | inr (request, parsed) ↦ elim (Option-cases (first? request.queries)) [
      | inl nothing ↦ rw (parsed, begin) (rw nothing tt)
      | inr (query, asked) ↦
          rw (parsed, begin)
            (rw asked (
              begin_query-Begins env wire client request query n free (count_query h m st)
                (count_query-Keeps n free st k)))
    ]
  ]

  -- After the second part, which does not fail: it may only panic.
  abbrev pub Completes : ℕ → ℕ → Result (AppState m × Bytes) → Type 0
  Completes n free (ok (st, out)) = Keeps n free st
  Completes n free (err e) = ⊥
  Completes n free panic = Unit

  persisted-bound :
      (key : CacheKey) (r : Result CachedResponse) (held : List (CacheKey × CachedResponse))
      → length held ≤ persist_channel_cap
      → length (persisted h m key r held) ≤ persist_channel_cap
  persisted-bound key (ok v) held l = length-try_send persist_channel_cap (key, v) held l
  persisted-bound key (err e) held l = l
  persisted-bound key panic held l = l

  after_load-Keeps :
      (key : CacheKey) (l : Loaded m.Cache) (n free : ℕ) (st : AppState m)
      → Keeps n free st
      → Keeps n free (after_load h m key l st)
  after_load-Keeps key l n free st k = record {
    counted = k.counted;
    permits = k.permits;
    persist = elim (Bool-cases l.ran) [
      | inl ran ↦ rw ran (persisted-bound key l.result st.persist k.persist)
      | inr joined ↦ rw joined k.persist
    ];
    log = k.log;
  }

  abbrev Settles : ℕ → ℕ → Result (Served (AppState m)) → Type 0
  Settles n free (ok s) = Keeps n free s.state
  Settles n free (err e) = ⊥
  Settles n free panic = Unit

  finish_load-Settles :
      (request : Message h.Name) (query : Query h.Name) (r : Result CachedResponse) (n free : ℕ)
      (st : AppState m)
      → Keeps (suc n) free st
      → Settles n free (finish_load h m request query r st)
  unfolding finish_load incr
  finish_load-Settles request query (ok v) n free st k = record {
    counted = omega (arith, k.counted);
    permits = k.permits;
    persist = k.persist;
    log = k.log;
  }
  finish_load-Settles request query (err e) n free st k = record {
    counted = omega (arith, k.counted);
    permits = k.permits;
    persist = k.persist;
    log = k.log;
  }
  finish_load-Settles request query panic n free st k = tt

  log_reply-Completes :
      (env : Env m) (l : Load h.Name) (r : Result (Served (AppState m))) (n free : ℕ)
      → Settles n free r
      → Completes n free (elim r [
        | ok s ↦ ok (log_with h m l.config env l.client l.query s.action s.state, s.response)
        | err e ↦ err e
        | panic ↦ panic
      ])
  log_reply-Completes env l (ok s) n free k =
      log_with-Keeps l.config env l.client l.query s.action n free s.state k
  log_reply-Completes env l (err e) n free k = k
  log_reply-Completes env l panic n free k = tt

  pub complete-Completes :
      (env : Env m) (l : Load h.Name) (n free : ℕ) (st : AppState m)
      → Keeps (suc n) free st
      → Completes n free (complete h m env l st)
  unfolding complete
  complete-Completes env l n free st k =
      let r = load_of h m env l st in
      let k' = after_load-Keeps (key_of h m l.query) r (suc n) free st k in
      log_reply-Completes env l _ n free (
        finish_load-Settles l.request l.query r.result n free
          (after_load h m (key_of h m l.query) r st) k')
