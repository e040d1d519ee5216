-- ===== src/Dns/Proper.antt =====
-- What a client gets for a query, from `handle` of src/dns.rs, whatever the branch.
use mathlib.Core.Path.{subst}
use rust_dns.Base.{
  ℕ, ◌≡◌, ◌≤◌, ◌<◌, ◌^◌, ◌⊎◌, inl, inr, refl, sym, ap, ◌∙◌, true, false, Option, none, some, [],
  length, drop, first?, Bool-cases, Option-cases,
}
use rust_dns.Blocklist.{is_blocked}
use rust_dns.Bytes.{Bytes}
use rust_dns.Cache.{CachedResponse}
use rust_dns.Config.{DnsConfig}
use rust_dns.Dns.{
  Env, Served, patch_id, query_name, key_of, serve_blocked, serve_cached, serve_unblocked,
  serve_miss, finish_load, serve, after_load, count_query, handle, base_response, build_blocked,
  build_response_code, with_code,
}
use rust_dns.Dns.Branches.{handle-Answered, loaded}
use rust_dns.Dns.Reply.{id_of, patch_id_lem}
use rust_dns.Dns.Sinkhole.{Says, Sinkhole, blocked_message-Sinkhole}
use rust_dns.Hickory.{Hickory, Message, Query, serv_fail}
use rust_dns.Result.{
  Error, Result, ok, err, panic, Ensures, Ensures-ok, ok-inj, ok_not_err, Ensures-map,
}
use rust_dns.State.{Moka, AppState, joined}
use rust_dns.State.Loads.{outcome}
use rust_dns.Text.{Text}
use rust_dns.Text.Unicode.{Unicode}
use rust_dns.Upstream.{unwrap_or, resolve}
use rust_dns.Upstream.Resolve.{Accepted, resolve_sound}

-- A message that is sent with another id.
pub record Patched (id : ℕ) (known out : Bytes) : Type 0 where
  pub same_rest : drop 2 out ≡ drop 2 known
  pub same_length : length out ≡ length known
  pub has_id : 2 ≤ length known → id_of out ≡ id

patch_id-Patched : (known : Bytes) (id : ℕ) → id < 2 ^ 16 → Patched id known (patch_id known id)
patch_id-Patched known id bound =
    let (same, rest, len) = patch_id_lem known id bound in
    record { same_rest = rest; same_length = len; has_id = same }

module _ (h : Hickory) where
  -- The bytes decode to such a message, or it has no encoding and there are none.
  abbrev pub Decodes : (Message h.Name → Type 0) → Bytes → Type 0
  Decodes P out =
      (msg : Message h.Name) × P msg
      × (((h.to_vec msg ≡ none) × (out ≡ [])) ⊎ (h.from_vec out ≡ some msg))

  encoded-Decodes :
      (P : Message h.Name → Type 0) (msg : Message h.Name)
      → P msg
      → Decodes P (unwrap_or (h.to_vec msg) [])
  encoded-Decodes P msg p = elim (Option-cases (h.to_vec msg)) [
    | inl e ↦ (msg, p, inl (e, rw e refl))
    | inr (b, e) ↦ (msg, p, inr (rw e (h.from_vec-to_vec msg b e)))
  ]

  with_code-Says :
      (request : Message h.Name) (query : Query h.Name) (dns : DnsConfig) (code : ℕ)
      → Says h request query dns (with_code h code (base_response h request query)) code []
  unfolding base_response
  with_code-Says request query dns code = record {
    same_id = refl;
    is_reply = refl;
    same_question = refl;
    code_is = refl;
    answers_are = refl;
  }

module _ ⦃u : Unicode⦄ (h : Hickory) (m : Moka) (env : Env m) (wire : Bytes) where
  module _ (request : Message h.Name) (query : Query h.Name) (st : AppState m) where
    -- Where an answer can come from: the cache, a load of another query for the same key, an insertion
    -- by another task since the cache was read, or the first server whose reply is valid.
    abbrev pub Source : CachedResponse → Type 0
    Source v =
        (m.get env.now (key_of h m query) st.cache ≡ some v)
        ⊎ ((env.flight ≡ joined (ok v))
            ⊎ ((m.get env.now (key_of h m query) (env.meanwhile st.cache) ≡ some v)
                ⊎ Accepted h env.net st.upstream env.now wire st.upstream.servers v.wire))

    -- The only ways not to have one.
    abbrev pub NoSource : Error → Type 0
    NoSource e =
        (m.get env.now (key_of h m query) st.cache ≡ none)
        × ((env.flight ≡ joined (err e)) ⊎ (resolve h env.net st.upstream env.now wire ≡ err e))

    abbrev FromSource : Bytes → Type 0
    FromSource out = (v : CachedResponse) × Source v × Patched request.metadata.id v.wire out

    abbrev Fails : Bytes → Type 0
    Fails out =
        (e : Error) × NoSource e
        × Decodes h (λ msg. Says h request query st.config.dns msg serv_fail []) out

    -- The reply to a query: a blocked name gets the sinkhole's message; any other gets an answer from
    -- a source with only the id changed, or SERVFAIL when there is none.
    abbrev pub Proper : Bytes → Type 0
    Proper out =
        ((is_blocked st.blocklist (query_name h m query) ≡ true)
          × Decodes h (Sinkhole h request query st.config.dns) out)
        ⊎ ((is_blocked st.blocklist (query_name h m query) ≡ false) × (FromSource out ⊎ Fails out))

    module _ (bound : request.metadata.id < 2 ^ 16) where
      finish_load_answers :
          (r : Result CachedResponse) (st' : AppState m)
          → ((v : CachedResponse) → r ≡ ok v → Source v)
          → ((e : Error) → r ≡ err e → NoSource e)
          → Ensures
              (λ s. FromSource s.response ⊎ Fails s.response)
              (finish_load h m request query r st')
      unfolding finish_load build_response_code
      finish_load_answers (ok v) st' good bad =
          inl (v, good v refl, patch_id-Patched v.wire request.metadata.id bound)
      finish_load_answers (err e) st' good bad = inr (
        e,
        bad e refl,
        encoded-Decodes h (λ msg. Says h request query st.config.dns msg serv_fail []) _
            (with_code-Says h request query st.config.dns serv_fail),
      )
      finish_load_answers panic st' good bad = tt

      loaded_answers :
          m.get env.now (key_of h m query) st.cache ≡ none
          → Ensures
              (λ s. FromSource s.response ⊎ Fails s.response)
              (finish_load h m request query
                (loaded h m env wire query st).result
                (after_load h m (key_of h m query) (loaded h m env wire query st) st))
      loaded_answers missing =
          let key = key_of h m query in
          let init = resolve h env.net st.upstream env.now wire in
          let found = outcome m env.flight env.now key init (env.meanwhile st.cache) in
          finish_load_answers (loaded h m env wire query st).result _
            (λ v e. elim found [
              | inl other ↦ inr (inl (other ∙ ap joined e))
              | inr (inl (w, there_is, same)) ↦
                  inr (inr (inl (there_is ∙ ap some (ok-inj (sym same ∙ e)))))
              | inr (inr own) ↦
                  inr
                    (inr (inr (resolve_sound h env.net st.upstream env.now wire v (sym own ∙ e)).0))
            ])
            (λ x e. (
              missing,
              elim found [
                | inl other ↦ inl (other ∙ ap joined e)
                | inr (inl (w, there_is, same)) ↦ absurd (ok_not_err (sym same ∙ e))
                | inr (inr own) ↦ inr (sym own ∙ e)
              ],
            ))

      abbrev IsProper : Result (Served (AppState m)) → Type 0
      IsProper r = Ensures (λ s. Proper s.response) r

      serve-Proper : IsProper (serve h m env wire request query st)
      unfolding serve serve_unblocked serve_miss serve_blocked serve_cached build_blocked
      serve-Proper = elim (Bool-cases (is_blocked st.blocklist (query_name h m query))) [
        | inl listed ↦
            let served : serve h m env wire request query st
                ≡ ok (serve_blocked h m request query st) =
              rw (listed, serve) refl in
            subst IsProper (sym served) (
              inl (
                listed,
                encoded-Decodes h (Sinkhole h request query st.config.dns) _
                    (blocked_message-Sinkhole h request query st.config.dns),
              ))
        | inr free ↦ elim (Option-cases (m.get env.now (key_of h m query) st.cache)) [
          | inl missing ↦
              let l = loaded h m env wire query st in
              let served : serve h m env wire request query st
                  ≡ finish_load h m request query l.result
                      (after_load h m (key_of h m query) l st) =
                rw (free, serve) (rw (missing, serve_unblocked) refl) in
              subst IsProper (sym served) (
                Ensures-map _ (λ s. Proper s.response) _ (λ s p. inr (free, p))
                  (loaded_answers missing))
          | inr (v, found) ↦
              let served : serve h m env wire request query st
                  ≡ ok (serve_cached h m request v st) =
                rw (free, serve) (rw (found, serve_unblocked) refl) in
              subst IsProper (sym served)
                (inr (free, inl (v, inl found, patch_id-Patched v.wire request.metadata.id bound)))
        ]
      ]

  -- A reply to a query that parses with a 16-bit id: if the name is blocked, it decodes to the
  -- sinkhole's message for the query. If it is not blocked, then either it is a known answer with only
  -- the id changed, to that of the query: one from the cache, one that another query for the same name
  -- and type loaded, or the reply of the first server whose reply to this query is valid; or there is
  -- none in the cache and the load failed, and the reply decodes to a response with the id and the
  -- question of the query, the code SERVFAIL and no answers. In place of a message that has no encoding
  -- the reply is empty.
  pub handle-Proper :
      (client : Option Text) (st st' : AppState m) (request : Message h.Name) (out : Bytes)
      → h.from_vec wire ≡ some request
      → request.metadata.id < 2 ^ 16
      → handle h m env wire client st ≡ ok (st', some out)
      → (query : Query h.Name) × (first? request.queries ≡ some query) × Proper request query st out
  unfolding count_query
  handle-Proper client st st' request out parsed bound e =
      let a = handle-Answered h m env wire client st st' request out parsed e in
      let proper =
        Ensures-ok (λ s. Proper request a.query (count_query h m st) s.response) _ a.served
          (serve-Proper request a.query (count_query h m st) bound) a.serves in
      (a.query, a.asked, subst (Proper request a.query st) (sym a.response) proper)
