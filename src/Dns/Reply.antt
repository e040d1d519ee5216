-- ===== src/Dns/Reply.antt =====
-- Every reply carries the transaction id of its query.
use rust_dns.Base.{
  ℕ, ◌^◌, ◌≤◌, ◌<◌, ◌≡◌, inl, inr, refl, sym, ◌∙◌, Option, some, [], ◌∷◌, length, take, drop, arith,
  Option-cases,
}
use rust_dns.Bytes.{Bytes, from_be_bytes}
use rust_dns.Hickory.{Hickory, Message, Query, serv_fail}
use rust_dns.Config.{DnsConfig}
use rust_dns.Result.{Result, ok, err, panic, Ensures, Ensures-ok}
use rust_dns.State.{Moka, AppState}
use rust_dns.Text.{Text}
use rust_dns.Text.Unicode.{Unicode}
use rust_dns.Upstream.{unwrap_or}
use rust_dns.Dns.{
  patch_id, base_response, with_code, blocked_message, build_blocked, build_response_code, Env,
  Served, key_of, serve_blocked, serve_cached, finish_load, serve, count_query, handle, after_load,
}
use rust_dns.Cache.{CachedResponse}
use rust_dns.Dns.Branches.{handle-Answered, serve-Ensures, loaded}

-- The id that a client reads in a reply.
abbrev pub id_of : Bytes → ℕ
id_of b = from_be_bytes (take 2 b)

-- Only the id changes.
pub patch_id_lem :
    (wire : Bytes) (id : ℕ)
    → id < 2 ^ 16
    → (2 ≤ length wire → id_of (patch_id wire id) ≡ id)
      × (drop 2 (patch_id wire id) ≡ drop 2 wire)
      × (length (patch_id wire id) ≡ length wire)
unfolding patch_id from_be_bytes
patch_id_lem [] id h = (λ l. absurd (omega arith), refl, refl)
patch_id_lem (a ∷ []) id h = (λ l. absurd (omega arith), refl, refl)
patch_id_lem (a ∷ b ∷ rest) id h = (λ l. omega arith, refl, refl)

-- The reply is empty, for want of an encoding, or has this id.
abbrev pub HasId : ℕ → Bytes → Type 0
HasId id out = 2 ≤ length out → id_of out ≡ id

module _ (h : Hickory) where
  pub encoded-HasId : (m : Message h.Name) → HasId m.metadata.id (unwrap_or (h.to_vec m) [])
  encoded-HasId m l = elim (Option-cases (h.to_vec m)) [
    | inl e ↦ absurd (ground (arith, e))
    | inr (b, e) ↦ let (_, same) = h.id_first b m (h.from_vec-to_vec m b e) in rw e (sym same)
  ]

  blocked_message-id :
      (request : Message h.Name) (query : Query h.Name) (dns : DnsConfig)
      → (blocked_message h request query dns).metadata.id ≡ request.metadata.id
  unfolding blocked_message
  blocked_message-id request query dns = ground arith

  pub build_blocked-HasId :
      (request : Message h.Name) (query : Query h.Name) (dns : DnsConfig)
      → HasId request.metadata.id (build_blocked h request query dns)
  unfolding build_blocked
  build_blocked-HasId request query dns l =
      encoded-HasId (blocked_message h request query dns) l ∙ blocked_message-id request query dns

  pub build_response_code-HasId :
      (request : Message h.Name) (query : Query h.Name) (code : ℕ)
      → HasId request.metadata.id (build_response_code h request query code)
  unfolding build_response_code
  build_response_code-HasId request query code l =
      encoded-HasId (with_code h code (base_response h request query)) l

module _ ⦃u : Unicode⦄ (h : Hickory) (m : Moka) (env : Env m) (wire : Bytes) where
  module _ (request : Message h.Name) (bound : request.metadata.id < 2 ^ 16)
      (query : Query h.Name) where
    abbrev GoodReply : Served (AppState m) → Type 0
    GoodReply s = HasId request.metadata.id s.response

    patched-HasId : (w : Bytes) → HasId request.metadata.id (patch_id w request.metadata.id)
    patched-HasId w l =
        let (same, _, len) = patch_id_lem w request.metadata.id bound in same (rw len at l)

    finish_load-GoodReply :
        (r : Result CachedResponse) (st : AppState m)
        → Ensures GoodReply (finish_load h m request query r st)
    unfolding finish_load
    finish_load-GoodReply (ok c) st = patched-HasId c.wire
    finish_load-GoodReply (err x) st = build_response_code-HasId h request query serv_fail
    finish_load-GoodReply panic st = tt

    serve-GoodReply : (st : AppState m) → Ensures GoodReply (serve h m env wire request query st)
    serve-GoodReply st =
        serve-Ensures h m env wire request query st GoodReply
          (λ _. unfold serve_blocked in build_blocked-HasId h request query st.config.dns)
          (λ v _. unfold serve_cached in patched-HasId v.wire)
          (λ _.
            finish_load-GoodReply (loaded h m env wire query st).result
              (after_load h m (key_of h m query) (loaded h m env wire query st) st))

  -- Whatever the branch (blocked, cached, forwarded or failed), a reply to a query that parses with
  -- a 16-bit id is shorter than two bytes or starts with that id.
  pub handle-id :
      (client : Option Text) (st st' : AppState m) (request : Message h.Name) (out : Bytes)
      → h.from_vec wire ≡ some request
      → request.metadata.id < 2 ^ 16
      → handle h m env wire client st ≡ ok (st', some out)
      → 2 ≤ length out
      → id_of out ≡ request.metadata.id
  handle-id client st st' request out parsed bound e l =
      let a = handle-Answered h m env wire client st st' request out parsed e in
      let good =
        Ensures-ok (GoodReply request bound a.query) _ a.served
          (serve-GoodReply request bound a.query (count_query h m st)) a.serves in
      rw a.response (good (rw a.response at l))
