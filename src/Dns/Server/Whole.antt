-- ===== src/Dns/Server/Whole.antt =====
-- `handle` of src/dns.rs is its two parts with nothing else in between but changes of the cache.
use rust_dns.Base.{
  ◌≡◌, inl, inr, refl, sym, ap, Option, none, some, first?, arith, Bool-cases, Option-cases,
}
use rust_dns.Result.{Result, ok, err, panic}
use rust_dns.Dns.Server.{ignored, answered, loading, Begun, begin, begin_query, complete, Load}
use rust_dns.Text.Unicode.{Unicode}
use rust_dns.Hickory.{Hickory, Message, Query}
use rust_dns.State.{Moka, AppState}
use rust_dns.Dns.{
  Env, finish_load, answer, handle, serve, Handled, serve_unblocked, serve_miss, log_query,
  count_query, Served, serve_blocked, log_with, serve_cached, query_name, key_of, after_load,
}
use rust_dns.Bytes.{Bytes}
use rust_dns.Text.{Text}
use rust_dns.Cache.{CachedResponse}
use rust_dns.Blocklist.{is_blocked}
use rust_dns.Dns.Branches.{loaded}

module _ ⦃u : Unicode⦄ (h : Hickory) (m : Moka) where
  abbrev pub with_reply : Result (AppState m × Bytes) → Handled h m
  with_reply (ok (st, out)) = ok (st, some out)
  with_reply (err e) = err e
  with_reply panic = panic

  abbrev logged_reply :
      Env m → Option Text → Query h.Name → Result (Served (AppState m)) → Handled h m
  logged_reply env client query (ok s) =
      ok (log_query h m env client query s.action s.state, some s.response)
  logged_reply env client query (err e) = err e
  logged_reply env client query panic = panic

  -- The second part follows at once, on a cache that other tasks have changed.
  abbrev pub run_through : Env m → AppState m → Begun (AppState m) h.Name → Handled h m
  run_through env st ignored = ok (st, none)
  run_through env st (answered st' out) = ok (st', some out)
  run_through env st (loading st' l) =
      with_reply (complete h m env l (record st' { cache = env.meanwhile st'.cache }))

  logs_alike :
      (env : Env m) (l : Load h.Name) (s : Served (AppState m))
      → s.state.config ≡ l.config
      → logged_reply env l.client l.query (ok s)
        ≡ ok (log_with h m l.config env l.client l.query s.action s.state, some s.response)
  unfolding log_query
  logs_alike env l s same =
      ap (λ cfg. ok (log_with h m cfg env l.client l.query s.action s.state, some s.response)) same

  -- The log sees the configuration that the load keeps, which is still the one in use.
  finish_then_log :
      (env : Env m) (l : Load h.Name) (r : Result CachedResponse) (st : AppState m)
      → l.config ≡ st.config
      → logged_reply env l.client l.query (finish_load h m l.request l.query r st)
        ≡ with_reply (elim (finish_load h m l.request l.query r st) [
          | ok s ↦ ok (log_with h m l.config env l.client l.query s.action s.state, s.response)
          | err e ↦ err e
          | panic ↦ panic
        ])
  unfolding finish_load log_query
  finish_then_log env l (ok c) st same = logs_alike env l _ (sym same)
  finish_then_log env l (err e) st same = logs_alike env l _ (sym same)
  finish_then_log env l panic st same = refl

  begin_query_then_complete :
      (env : Env m) (wire : Bytes) (client : Option Text) (request : Message h.Name)
      (query : Query h.Name) (st : AppState m)
      → answer h m env wire client request query st
        ≡ run_through env st (begin_query h m env wire client request query (count_query h m st))
  unfolding answer serve_unblocked serve_miss log_query begin_query complete serve_blocked
      serve_cached
  begin_query_then_complete env wire client request query st =
      let c = count_query h m st in
      elim (Bool-cases (is_blocked c.blocklist (query_name h m query))) [
        | inl listed ↦ rw (listed, answer, serve) refl
        | inr free ↦ elim (Option-cases (m.get env.now (key_of h m query) c.cache)) [
          | inr (v, found) ↦ rw (free, answer, serve) (rw (found, serve_unblocked) refl)
          | inl missing ↦
              let l : Load h.Name = record {
                wire = wire;
                client = client;
                request = request;
                query = query;
                config = c.config;
                upstream = c.upstream;
              } in
              let r = loaded h m env wire query c in
              let rest =
                finish_then_log env l r.result (after_load h m (key_of h m query) r c) refl in
              rw (free, answer, serve) (rw (missing, serve_unblocked) rest)
        ]
      ]

  -- To handle a query is to begin it and to complete its load, if there is one: `handle` does the same,
  -- whatever the query meets, when the only change of the state in between is that of the cache.
  pub begin_then_complete :
      (env : Env m) (wire : Bytes) (client : Option Text) (st : AppState m)
      → handle h m env wire client st ≡ run_through env st (begin h m env wire client st)
  unfolding handle begin
  begin_then_complete env wire client st = elim (Option-cases (h.from_vec wire)) [
    | inl garbage ↦ ground (arith, garbage)
    | inr (request, parsed) ↦ elim (Option-cases (first? request.queries)) [
      | inl nothing ↦ ground (arith, parsed, nothing)
      | inr (query, asked) ↦
          rw (parsed, handle)
            (rw asked (
              rw (parsed, begin)
                (rw asked (begin_query_then_complete env wire client request query st))))
    ]
  ]
