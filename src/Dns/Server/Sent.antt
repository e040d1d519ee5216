-- ===== src/Dns/Server/Sent.antt =====
-- The replies that the process sends: each answers a message that it took.
use rust_dns.Dns.Server.{ignored, answered, loading, begin_query, begin, complete, Begun, Load}
use rust_dns.Base.{
  ℕ, ◌%◌, ◌^◌, ◌≡◌, ◌<◌, ◌⊎◌, inl, inr, ap, Option, some, List, [], ◌∷◌, length, first?, arith,
  Bool-cases, Option-cases, ltb, In,
}
use rust_dns.Result.{Result, ok, err, panic, Ensures}
use rust_dns.Text.Unicode.{Unicode}
use rust_dns.Hickory.{Hickory, Message, Query, serv_fail}
use rust_dns.State.{Moka, AppState}
use rust_dns.Bytes.{Bytes, from_be_bytes}
use rust_dns.Dns.{
  Env, finish_load, patch_id, serve_blocked, serve_cached, count_query, Served, query_name,
  log_with, build_blocked, key_of,
}
use rust_dns.Dns.Server.Steps.{Origin}
use rust_dns.Text.{Text}
use rust_dns.Dns.Reply.{id_of, HasId, build_response_code-HasId, build_blocked-HasId}
use rust_dns.Cache.{CachedResponse}
use rust_dns.Blocklist.{is_blocked}

module _ ⦃u : Unicode⦄ (h : Hickory) (m : Moka) where
  -- A reply is shorter than two bytes or has the id of the request, as 16 bits.
  abbrev pub IsReplyTo : Message h.Name → Bytes → Type 0
  IsReplyTo request out = (length out < 2) ⊎ (id_of out % 2 ^ 16 ≡ request.metadata.id % 2 ^ 16)

  HasId-IsReplyTo :
      (request : Message h.Name) (out : Bytes)
      → HasId request.metadata.id out
      → IsReplyTo request out
  HasId-IsReplyTo request out has = elim (Bool-cases (ltb (length out) 2)) [
    | inl short ↦ inl (ground (arith, short))
    | inr long ↦ let same = has (ground (arith, long)) in inr (ap (λ (i : ℕ). i % 2 ^ 16) same)
  ]

  patch_id-IsReplyTo :
      (request : Message h.Name) (wire : Bytes)
      → IsReplyTo request (patch_id wire request.metadata.id)
  unfolding patch_id from_be_bytes
  patch_id-IsReplyTo request [] = inl (omega arith)
  patch_id-IsReplyTo request (a ∷ []) = inl (omega arith)
  patch_id-IsReplyTo request (a ∷ b ∷ rest) = inr (omega arith)

  -- A message that was taken from `o` and parses as a request to which `out` replies.
  pub record Answers (received : List (Origin × Bytes)) (o : Origin) (out : Bytes) : Type 0 where
    pub wire : Bytes
    pub taken : In (o, wire) received
    pub request : Message h.Name
    pub parsed : h.from_vec wire ≡ some request
    pub replies : IsReplyTo request out

  abbrev pub BeginsFor : Bytes → Begun (AppState m) h.Name → Type 0
  BeginsFor wire ignored = Unit
  BeginsFor wire (answered st out) =
      (request : Message h.Name) × (h.from_vec wire ≡ some request) × IsReplyTo request out
  BeginsFor wire (loading st l) = h.from_vec wire ≡ some l.request

  begin_query-BeginsFor :
      (env : Env m) (wire : Bytes) (client : Option Text) (request : Message h.Name)
      (query : Query h.Name) (st : AppState m)
      → h.from_vec wire ≡ some request
      → BeginsFor wire (begin_query h m env wire client request query st)
  unfolding begin_query serve_blocked serve_cached
  begin_query-BeginsFor env wire client request query st parsed =
      elim (Bool-cases (is_blocked st.blocklist (query_name h m query))) [
        | inl listed ↦
            rw (listed, begin_query)
              (
                request,
                parsed,
                HasId-IsReplyTo request (build_blocked h request query st.config.dns)
                    (build_blocked-HasId h request query st.config.dns),
              )
        | inr free ↦ elim (Option-cases (m.get env.now (key_of h m query) st.cache)) [
          | inl missing ↦ rw (free, begin_query) (rw missing parsed)
          | inr (v, found) ↦
              rw (free, begin_query) (rw found (request, parsed, patch_id-IsReplyTo request v.wire))
        ]
      ]

  pub begin-BeginsFor :
      (env : Env m) (wire : Bytes) (client : Option Text) (st : AppState m)
      → BeginsFor wire (begin h m env wire client st)
  unfolding begin
  begin-BeginsFor env wire client st = elim (Option-cases (h.from_vec wire)) [
    | inl garbage ↦ rw (garbage, begin) tt
    | inr (request, parsed) ↦ elim (Option-cases (first? request.queries)) [
      | inl nothing ↦ rw (parsed, begin) (rw nothing tt)
      | inr (query, asked) ↦
          rw (parsed, begin)
            (rw asked
              (begin_query-BeginsFor env wire client request query (count_query h m st) parsed))
    ]
  ]

  abbrev pub RepliesTo : Message h.Name → Result (AppState m × Bytes) → Type 0
  RepliesTo request (ok (st, out)) = IsReplyTo request out
  RepliesTo request (err e) = Unit
  RepliesTo request panic = Unit

  log_reply-RepliesTo :
      (env : Env m) (l : Load h.Name) (r : Result (Served (AppState m)))
      → Ensures (λ s. IsReplyTo l.request s.response) r
      → RepliesTo l.request (elim r [
        | ok s ↦ ok (log_with h m l.config env l.client l.query s.action s.state, s.response)
        | err e ↦ err e
        | panic ↦ panic
      ])
  log_reply-RepliesTo env l (ok s) k = k
  log_reply-RepliesTo env l (err e) k = tt
  log_reply-RepliesTo env l panic k = tt

  finish_load-IsReplyTo :
      (request : Message h.Name) (query : Query h.Name) (r : Result CachedResponse)
      (st : AppState m)
      → Ensures (λ s. IsReplyTo request s.response) (finish_load h m request query r st)
  unfolding finish_load
  finish_load-IsReplyTo request query (ok v) st = patch_id-IsReplyTo request v.wire
  finish_load-IsReplyTo request query (err e) st =
      HasId-IsReplyTo request _ (build_response_code-HasId h request query serv_fail)
  finish_load-IsReplyTo request query panic st = tt

  pub complete-RepliesTo :
      (env : Env m) (l : Load h.Name) (st : AppState m)
      → RepliesTo l.request (complete h m env l st)
  unfolding complete
  complete-RepliesTo env l st =
      log_reply-RepliesTo env l _ (finish_load-IsReplyTo l.request l.query _ _)
