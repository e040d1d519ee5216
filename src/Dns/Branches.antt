-- ===== src/Dns/Branches.antt =====
-- The branches of `serve` and of `handle`, once for all proofs about them.
use rust_dns.Base.{
  ◌≡◌, refl, sym, ◌∙◌, true, Option, none, some, first?, arith, Bool-cases, Option-cases, inl, inr,
  some-inj, ap,
}
use rust_dns.Blocklist.{is_blocked}
use rust_dns.Bytes.{Bytes}
use rust_dns.Cache.{CachedResponse}
use rust_dns.Hickory.{Hickory, Message, Query}
use rust_dns.Result.{ok, Result-cases, Ensures, ok-inj}
use rust_dns.State.{Moka, Loaded, AppState}
use rust_dns.Text.{Text}
use rust_dns.Text.Unicode.{Unicode}
use rust_dns.Upstream.{resolve}
use rust_dns.Dns.{
  Env, Served, query_name, key_of, serve_blocked, serve_cached, finish_load, after_load, serve_miss,
  serve_unblocked, serve, count_query, log_query, answer, handle,
}

module _ ⦃u : Unicode⦄ (h : Hickory) (m : Moka) (env : Env m) (wire : Bytes) where
  abbrev pub loaded : Query h.Name → AppState m → Loaded m.Cache
  loaded query st =
      m.try_get_with env.flight env.now (key_of h m query)
        (resolve h env.net st.upstream env.now wire) (env.meanwhile st.cache)

  -- What holds after each branch holds after `serve`.
  pub serve-Ensures {κ} :
      (request : Message h.Name) (query : Query h.Name) (st : AppState m)
      (P : Served (AppState m) → Type κ)
      → (is_blocked st.blocklist (query_name h m query) ≡ true
          → P (serve_blocked h m request query st))
      → ((v : CachedResponse)
          → m.get env.now (key_of h m query) st.cache ≡ some v
          → P (serve_cached h m request v st))
      → (m.get env.now (key_of h m query) st.cache ≡ none
          → Ensures P (
              finish_load h m request query
                (loaded query st).result
                (after_load h m (key_of h m query) (loaded query st) st)))
      → Ensures P (serve h m env wire request query st)
  unfolding serve serve_unblocked serve_miss
  serve-Ensures request query st P b c f =
      elim (Bool-cases (is_blocked st.blocklist (query_name h m query))) [
        | inl listed ↦ rw (listed, serve) (b listed)
        | inr free ↦ elim (Option-cases (m.get env.now (key_of h m query) st.cache)) [
          | inl missing ↦
              rw (free, serve) (rw (missing, serve_unblocked) (unfold serve_miss in f missing))
          | inr (v, found) ↦ rw (free, serve) (rw (found, serve_unblocked) (c v found))
        ]
      ]

  -- What `handle` does to a query that parses: one branch of `serve`, then the log.
  pub record Answered (request : Message h.Name) (client : Option Text) (st st' : AppState m)
      (out : Bytes) : Type 0 where
    pub query : Query h.Name
    pub asked : first? request.queries ≡ some query
    pub served : Served (AppState m)
    pub serves : serve h m env wire request query (count_query h m st) ≡ ok served
    pub response : out ≡ served.response
    pub state : st' ≡ log_query h m env client query served.action served.state

  answer-Answered :
      (client : Option Text) (st st' : AppState m) (request : Message h.Name) (query : Query h.Name)
      (out : Bytes)
      → first? request.queries ≡ some query
      → answer h m env wire client request query st ≡ ok (st', some out)
      → Answered request client st st' out
  unfolding answer
  answer-Answered client st st' request query out asked e =
      elim (Result-cases (serve h m env wire request query (count_query h m st))) [
        | inl (s, served) ↦
            let same : (log_query h m env client query s.action s.state, some s.response)
                ≡ (st', some out) =
              ok-inj (sym (rw (served, answer) refl) ∙ e) in
            record {
              query = query;
              asked = asked;
              served = s;
              serves = served;
              response = some-inj (sym (ap (λ p. p.1) same));
              state = sym (ap (λ p. p.0) same);
            }
        | inr (inl (x, failed)) ↦ absurd (ground (arith, e, failed))
        | inr (inr died) ↦ absurd (ground (arith, e, died))
      ]

  pub handle-Answered :
      (client : Option Text) (st st' : AppState m) (request : Message h.Name) (out : Bytes)
      → h.from_vec wire ≡ some request
      → handle h m env wire client st ≡ ok (st', some out)
      → Answered request client st st' out
  unfolding handle
  handle-Answered client st st' request out parsed e =
      elim (Option-cases (first? request.queries)) [
        | inl nothing ↦ absurd (ground (arith, parsed, e, nothing))
        | inr (query, asked) ↦
            answer-Answered client st st' request query out asked (ground (arith, parsed, e, asked))
      ]
