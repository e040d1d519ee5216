-- ===== src/Dns/Server/Reuse.antt =====
-- How long an answer is reused from the RAM cache.
use rust_dns.Base.{
  max, sym, none, ◌≤◌, true, ℕ, ◌+◌, ◌≡◌, ◌<◌, ◌⊎◌, inl, inr, refl, ap, ◌∙◌, false, Option, some,
  first?, arith, Bool-cases, Option-cases, leb,
}
use rust_dns.Upstream.{resolve}
use rust_dns.Upstream.Resolve.{resolve_sound}
use rust_dns.Result.{ok, ok-inj}
use rust_dns.Config.{Config}
use rust_dns.Dns.Server.{complete, load_of, answered, loading, begin, begin_query, Begun, Load}
use rust_dns.Text.Unicode.{Unicode}
use rust_dns.Hickory.{Hickory, Message, Query}
use rust_dns.State.{alone, Action, Moka, AppState}
use rust_dns.Cache.{CachedResponse, expire_after_create}
use rust_dns.Dns.{
  finish_load, Env, count_query, serve_cached, patch_id, query_name, key_of, log_with,
}
use rust_dns.Bytes.{Bytes}
use rust_dns.Text.{Text}
use rust_dns.Blocklist.{is_blocked}

module _ ⦃u : Unicode⦄ (h : Hickory) (m : Moka) where
  -- At the time `now`, a query is answered by the entry, which is reused until some time, or it asks
  -- the upstream.
  abbrev pub Reuses :
      CachedResponse → (until now : ℕ) → Message h.Name → Begun (AppState m) h.Name → Type 0
  Reuses v until now request b =
      ((st : AppState m) × (b ≡ answered st (patch_id v.wire request.metadata.id)) × (now < until))
      ⊎ ((st : AppState m) × (l : Load h.Name) × (b ≡ loading st l))

  begin_opened :
      (env : Env m) (wire : Bytes) (client : Option Text) (request : Message h.Name)
      (query : Query h.Name) (st : AppState m)
      → h.from_vec wire ≡ some request
      → first? request.queries ≡ some query
      → begin h m env wire client st
        ≡ begin_query h m env wire client request query (count_query h m st)
  unfolding begin
  begin_opened env wire client request query st parsed asked = rw (parsed, begin) (rw asked refl)

  -- After an entry was inserted at the time `since`.
  begin-Reuses :
      (env : Env m) (wire : Bytes) (client : Option Text) (request : Message h.Name)
      (query : Query h.Name) (st : AppState m) (since : ℕ) (v : CachedResponse) (c : m.Cache)
      → h.from_vec wire ≡ some request
      → first? request.queries ≡ some query
      → is_blocked st.blocklist (query_name h m query) ≡ false
      → st.cache ≡ m.insert since (key_of h m query) v c
      → Reuses v (since + max v.ttl_secs 1) env.now request (begin h m env wire client st)
  unfolding begin_query count_query serve_cached expire_after_create
  begin-Reuses env wire client request query st since v c parsed asked free held =
      let opened = begin_opened env wire client request query st parsed asked in
      elim (Option-cases (m.get env.now (key_of h m query) st.cache)) [
        | inl missing ↦
            let l : Load h.Name = record {
              wire = wire;
              client = client;
              request = request;
              query = query;
              config = st.config;
              upstream = st.upstream;
            } in
            inr (count_query h m st, l, opened ∙ rw (free, begin_query) (rw missing refl))
        | inr (w, found) ↦
            let same : w ≡ v = m.latest since env.now (key_of h m query) v w c (rw held at found) in
            let s = serve_cached h m request w (count_query h m st) in
            let st' = log_with h m st.config env client query s.action s.state in
            let replies : begin h m env wire client st
                ≡ answered st' (patch_id w.wire request.metadata.id) =
              opened ∙ rw (free, begin_query) (rw found refl) in
            let reused : patch_id w.wire request.metadata.id ≡ patch_id v.wire request.metadata.id =
              ap (λ x. patch_id x.wire request.metadata.id) same in
            elim (Bool-cases (leb (since + max v.ttl_secs 1) env.now)) [
              | inr early ↦ inl (st', rw reused at replies, ground (arith, early))
              | inl late ↦ absurd (
                  cc (
                    rw held at found,
                    m.expires since env.now (max v.ttl_secs 1) (key_of h m query) v c refl
                        (ground (arith, late)),
                  ))
            ]
      ]

  log_with-cache :
      (cfg : Config) (env : Env m) (client : Option Text) (query : Query h.Name) (action : Action)
      (st : AppState m)
      → (log_with h m cfg env client query action st).cache ≡ st.cache
  unfolding log_with
  log_with-cache cfg env client query action st = elim (Option-cases st.qlog) [
    | inl off ↦ rw off refl
    | inr (held, on) ↦ rw on refl
  ]

  -- The end of a load that was run and got an entry.
  complete-cache :
      (env : Env m) (l : Load h.Name) (st after : AppState m) (out : Bytes) (v : CachedResponse)
      → env.flight ≡ alone
      → m.get env.now (key_of h m l.query) st.cache ≡ none
      → resolve h env.net l.upstream env.now l.wire ≡ ok v
      → complete h m env l st ≡ ok (after, out)
      → after.cache ≡ m.insert env.now (key_of h m l.query) v st.cache
  unfolding complete finish_load
  complete-cache env l st after out v only missing got e =
      let key = key_of h m l.query in
      let loaded : load_of h m env l st
          ≡ record { cache = m.insert env.now key v st.cache; result = ok v; ran = true } =
        ap
          (λ f. m.try_get_with f env.now key (resolve h env.net l.upstream env.now l.wire) st.cache)
          only
        ∙ ap (λ r. m.try_get_with alone env.now key r st.cache) got
        ∙ m.loads env.now key st.cache v missing in
      let done = rw (loaded, complete) at e in
      ap (λ p. p.0.cache) (sym (ok-inj done)) ∙ log_with-cache l.config env l.client l.query _ _

  -- A load that no other one joins, that still finds its key missing, and to which the upstream gives
  -- an answer, ends at some time. A query that comes right after it, at any time, for the same name and
  -- type, and whose name is not blocked, is answered by that answer with the id of the query, and then
  -- the TTL of the answer, or one second if it is 0, is not over since the load; or it asks the
  -- upstream. That TTL is at most the `max_ttl` of the load.
  pub complete-Reuses :
      (env later : Env m) (l : Load h.Name) (st after : AppState m) (out wire : Bytes)
      (client : Option Text) (request : Message h.Name) (query : Query h.Name) (v : CachedResponse)
      → env.flight ≡ alone
      → m.get env.now (key_of h m l.query) st.cache ≡ none
      → resolve h env.net l.upstream env.now l.wire ≡ ok v
      → complete h m env l st ≡ ok (after, out)
      → h.from_vec wire ≡ some request
      → first? request.queries ≡ some query
      → key_of h m query ≡ key_of h m l.query
      → is_blocked after.blocklist (query_name h m query) ≡ false
      → Reuses v (env.now + max v.ttl_secs 1) later.now request (begin h m later wire client after)
        × (v.ttl_secs ≤ l.upstream.max_ttl)
  complete-Reuses env later l st after out wire client request query v only missing got ended parsed
        asked same free =
      let held = complete-cache env l st after out v only missing got ended in
      let (_, _, _, _, ceiling) = resolve_sound h env.net l.upstream env.now l.wire v got in
      (
        begin-Reuses later wire client request query after env.now v st.cache parsed asked free
            (held ∙ ap (λ k. m.insert env.now k v st.cache) (sym same)),
        ceiling,
      )
