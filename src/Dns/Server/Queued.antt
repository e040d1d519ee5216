-- ===== src/Dns/Server/Queued.antt =====
-- What the end of a load queues for the store.
use rust_dns.Base.{
  ℕ, ◌≡◌, ◌⊎◌, inl, inr, refl, sym, ◌∙◌, true, List, arith, Bool-cases, Option-cases,
}
use rust_dns.Result.{Result, ok, err, panic, Ensures, Result-cases}
use rust_dns.State.Loads.{by_init}
use rust_dns.State.{joined, alone, Moka, Flight, AppState, Loaded, try_send, persist_channel_cap}
use rust_dns.Text.Unicode.{Unicode}
use rust_dns.Hickory.{Hickory, Message, Query}
use rust_dns.Cache.{CacheKey, CachedResponse}
use rust_dns.Dns.{Env, finish_load, Served, key_of, after_load, log_with}
use rust_dns.Dns.Server.{complete, Load, load_of}
use rust_dns.Bytes.{Bytes}
use rust_dns.Cache.Store.{Item}
use rust_dns.Dns.Server.Steady.{IsSteady, KeepsSetup, log_with-IsSteady}
use rust_dns.Upstream.{resolve}

module _ ⦃u : Unicode⦄ (h : Hickory) (m : Moka) where
  -- Only a load that was run has the outcome of its own future.
  by_flight :
      (f : Flight) (now : ℕ) (key : CacheKey) (init : Result CachedResponse) (c : m.Cache)
      → (m.try_get_with f now key init c).ran ≡ true
      → (m.try_get_with f now key init c).result ≡ init
  by_flight (joined r) now key init c ran = absurd (ground (arith, ran, m.joins r now key init c))
  by_flight alone now key init c ran = elim (Option-cases (m.get now key c)) [
    | inr (v, found) ↦ absurd (ground (arith, ran, m.finds now key init c v found))
    | inl missing ↦ by_init m now key init c missing
  ]

  loaded_by_init :
      (env : Env m) (key : CacheKey) (init : Result CachedResponse) (c : m.Cache)
      → (m.try_get_with env.flight env.now key init c).ran ≡ true
      → (m.try_get_with env.flight env.now key init c).result ≡ init
  loaded_by_init env key init c ran = by_flight env.flight env.now key init c ran

  -- The queue is as it was, or has what the future resolved to.
  abbrev pub Queues : CacheKey → Result CachedResponse → List Item → List Item → Type 0
  Queues key init held held' =
      (held' ≡ held)
      ⊎ ((v : CachedResponse) × (held' ≡ try_send persist_channel_cap (key, v) held)
          × (init ≡ ok v))

  after_load-Queues :
      (key : CacheKey) (init : Result CachedResponse) (l : Loaded m.Cache) (st : AppState m)
      → (l.ran ≡ true → l.result ≡ init)
      → Queues key init st.persist (after_load h m key l st).persist
  after_load-Queues key init l st own = elim (Bool-cases l.ran) [
    | inr shared ↦ rw shared (inl refl)
    | inl ran ↦ elim (Result-cases l.result) [
      | inl (v, got) ↦ rw (ran, got) (inr (v, refl, sym (own ran) ∙ got))
      | inr (inl (e, failed)) ↦ rw (ran, failed) (inl refl)
      | inr (inr died) ↦ rw (ran, died) (inl refl)
    ]
  ]

  finish_load-IsSteady :
      (request : Message h.Name) (query : Query h.Name) (r : Result CachedResponse)
      (st : AppState m)
      → Ensures (λ s. IsSteady h m st s.state) (finish_load h m request query r st)
  unfolding finish_load
  finish_load-IsSteady request query (ok v) st = record {
    setup = record { config = refl; upstream = refl; blocklist = refl };
    persist = refl;
  }
  finish_load-IsSteady request query (err e) st = record {
    setup = record { config = refl; upstream = refl; blocklist = refl };
    persist = refl;
  }
  finish_load-IsSteady request query panic st = tt

  abbrev SteadyReply : AppState m → Result (AppState m × Bytes) → Type 0
  SteadyReply st (ok (st', out)) = IsSteady h m st st'
  SteadyReply st (err e) = Unit
  SteadyReply st panic = Unit

  log_reply-SteadyReply :
      (env : Env m) (l : Load h.Name) (st : AppState m) (r : Result (Served (AppState m)))
      → Ensures (λ s. IsSteady h m st s.state) r
      → SteadyReply st (elim r [
        | ok s ↦ ok (log_with h m l.config env l.client l.query s.action s.state, s.response)
        | err e ↦ err e
        | panic ↦ panic
      ])
  log_reply-SteadyReply env l st (ok s) k =
      log_with-IsSteady h m l.config env l.client l.query s.action st s.state k
  log_reply-SteadyReply env l st (err e) k = tt
  log_reply-SteadyReply env l st panic k = tt

  -- After the second part of a query: the setup is as it was, and the queue has at most one more
  -- entry, which is what the upstream gave for the message.
  abbrev pub StoresFor : Env m → Load h.Name → AppState m → Result (AppState m × Bytes) → Type 0
  StoresFor env l st (ok (st', out)) =
      KeepsSetup h m st st'
      × Queues (key_of h m l.query) (resolve h env.net l.upstream env.now l.wire) st.persist
          st'.persist
  StoresFor env l st (err e) = Unit
  StoresFor env l st panic = Unit

  from_steady :
      (env : Env m) (l : Load h.Name) (st loaded : AppState m) (r : Result (AppState m × Bytes))
      → loaded.config ≡ st.config
      → loaded.upstream ≡ st.upstream
      → loaded.blocklist ≡ st.blocklist
      → Queues
          (key_of h m l.query)
          (resolve h env.net l.upstream env.now l.wire)
          st.persist
          loaded.persist
      → SteadyReply loaded r
      → StoresFor env l st r
  from_steady env l st loaded (ok (st', out)) config upstream blocklist queues k = (
    record {
      config = k.setup.config ∙ config;
      upstream = k.setup.upstream ∙ upstream;
      blocklist = k.setup.blocklist ∙ blocklist;
    },
    rw k.persist queues,
  )
  from_steady env l st loaded (err e) config upstream blocklist queues k = tt
  from_steady env l st loaded panic config upstream blocklist queues k = tt

  pub complete-StoresFor :
      (env : Env m) (l : Load h.Name) (st : AppState m) → StoresFor env l st (complete h m env l st)
  unfolding complete
  complete-StoresFor env l st =
      let key = key_of h m l.query in
      let init = resolve h env.net l.upstream env.now l.wire in
      let r = load_of h m env l st in
      let loaded = after_load h m key r st in
      from_steady env l st loaded _ refl refl refl
        (after_load-Queues key init r st (loaded_by_init env key init st.cache))
        (log_reply-SteadyReply env l loaded _
          (finish_load-IsSteady l.request l.query r.result loaded))
