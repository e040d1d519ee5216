-- ===== src/Dns/Server/Steady.antt =====
-- What the two parts of `handle` do not change, and what the second one queues for the store.
use rust_dns.Dns.Server.{ignored, answered, loading, begin_query, begin, Begun, Load}
use rust_dns.Base.{◌≡◌, inl, inr, refl, Option, some, first?, Bool-cases, Option-cases}
use rust_dns.Text.Unicode.{Unicode}
use rust_dns.Hickory.{Hickory, Query, Message}
use rust_dns.State.{Moka, AppState, Action}
use rust_dns.Dns.{log_with, serve_blocked, Env, serve_cached, count_query, query_name, key_of}
use rust_dns.Bytes.{Bytes}
use rust_dns.Config.{Config}
use rust_dns.Text.{Text}
use rust_dns.Blocklist.{is_blocked}

module _ ⦃u : Unicode⦄ (h : Hickory) (m : Moka) where
  -- The configuration, the upstream and the blocklist are as they were.
  pub record KeepsSetup (st st' : AppState m) : Type 0 where
    pub config : st'.config ≡ st.config
    pub upstream : st'.upstream ≡ st.upstream
    pub blocklist : st'.blocklist ≡ st.blocklist

  -- So is the channel to the store's writer.
  pub record IsSteady (st st' : AppState m) : Type 0 where
    pub setup : KeepsSetup st st'
    pub persist : st'.persist ≡ st.persist

  abbrev steady : (st : AppState m) → IsSteady st st
  steady st = record {
    setup = record { config = refl; upstream = refl; blocklist = refl };
    persist = refl;
  }

  pub log_with-IsSteady :
      (cfg : Config) (env : Env m) (client : Option Text) (query : Query h.Name) (action : Action)
      (st st' : AppState m)
      → IsSteady st st'
      → IsSteady st (log_with h m cfg env client query action st')
  unfolding log_with
  log_with-IsSteady cfg env client query action st st' k = elim (Option-cases st'.qlog) [
    | inl off ↦
        rw (off, log_with)
          (record {
            setup = record {
              config = k.setup.config;
              upstream = k.setup.upstream;
              blocklist = k.setup.blocklist;
            };
            persist = k.persist;
          })
    | inr (held, on) ↦
        rw (on, log_with)
          (record {
            setup = record {
              config = k.setup.config;
              upstream = k.setup.upstream;
              blocklist = k.setup.blocklist;
            };
            persist = k.persist;
          })
  ]

  -- A load keeps the message, the question and the upstream that it saw.
  pub record LoadsFor (wire : Bytes) (st : AppState m) (l : Load h.Name) : Type 0 where
    pub same_wire : l.wire ≡ wire
    pub parsed : h.from_vec wire ≡ some l.request
    pub asked : first? l.request.queries ≡ some l.query
    pub upstream : l.upstream ≡ st.upstream

  abbrev pub BeginsSteady : Bytes → AppState m → Begun (AppState m) h.Name → Type 0
  BeginsSteady wire st ignored = Unit
  BeginsSteady wire st (answered st' out) = IsSteady st st'
  BeginsSteady wire st (loading st' l) = IsSteady st st' × LoadsFor wire st l

  begin_query-BeginsSteady :
      (env : Env m) (wire : Bytes) (client : Option Text) (request : Message h.Name)
      (query : Query h.Name) (st : AppState m)
      → h.from_vec wire ≡ some request
      → first? request.queries ≡ some query
      → BeginsSteady wire st (begin_query h m env wire client request query (count_query h m st))
  unfolding begin_query serve_blocked serve_cached count_query
  begin_query-BeginsSteady env wire client request query st parsed asked =
      elim (Bool-cases (is_blocked st.blocklist (query_name h m query))) [
        | inl listed ↦ rw listed (
            log_with-IsSteady st.config env client query Action.blocked st _ (record {
              setup = record { config = refl; upstream = refl; blocklist = refl };
              persist = refl;
            }))
        | inr free ↦ elim (Option-cases (m.get env.now (key_of h m query) st.cache)) [
          | inl missing ↦ rw free (
              rw missing (
                record {
                  setup = record { config = refl; upstream = refl; blocklist = refl };
                  persist = refl;
                },
                record { same_wire = refl; parsed = parsed; asked = asked; upstream = refl },
              ))
          | inr (v, found) ↦ rw free (
              rw found (
                log_with-IsSteady st.config env client query Action.cached st _ (record {
                  setup = record { config = refl; upstream = refl; blocklist = refl };
                  persist = refl;
                })))
        ]
      ]

  pub begin-BeginsSteady :
      (env : Env m) (wire : Bytes) (client : Option Text) (st : AppState m)
      → BeginsSteady wire st (begin h m env wire client st)
  unfolding begin
  begin-BeginsSteady env wire client st = elim (Option-cases (h.from_vec wire)) [
    | inl garbage ↦ rw (garbage, begin) tt
    | inr (request, parsed) ↦ elim (Option-cases (first? request.queries)) [
      | inl nothing ↦ rw (parsed, begin) (rw nothing tt)
      | inr (query, asked) ↦
          rw (parsed, begin)
            (rw asked (begin_query-BeginsSteady env wire client request query st parsed asked))
    ]
  ]
