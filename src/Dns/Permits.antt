-- ===== src/Dns/Permits.antt =====
-- The permits of `inflight`: none is lost, and none is made.
use rust_dns.Base.{
  ℕ, length-append, suc, ◌+◌, ◌≡◌, inl, inr, refl, ap, ◌∙◌, Option, none, some, ◌∷◌, length, arith,
  Option-cases,
}
use rust_dns.Result.{Result, ok, err, panic, Ensures, Result-cases, Ensures-ok}
use rust_dns.Dns.Listen.{
  inflight-cases, start_at, goes_on, Udp, receive, finish, try_acquire, Step, Runs, count_dropped,
  Task, arrives, ends,
}
use rust_dns.Dns.{
  handle, Served, finish_load, Env, log_query, count_query, serve, serve_blocked, serve_cached,
  after_load, key_of,
}
use rust_dns.Text.Unicode.{Unicode}
use rust_dns.Hickory.{Hickory, Message, Query}
use rust_dns.State.{Moka, AppState, Action}
use rust_dns.Bytes.{Bytes}
use rust_dns.Text.{Text}
use rust_dns.Dns.Counters.{handle-drops}
use rust_dns.Cache.{CachedResponse}
use rust_dns.Dns.Branches.{handle-Answered, serve-Ensures, loaded}

module _ ⦃u : Unicode⦄ (h : Hickory) (m : Moka) where
  abbrev ServedPermits : ℕ → Served (AppState m) → Type 0
  ServedPermits n s = s.state.inflight ≡ n

  finish_load-permits :
      (request : Message h.Name) (query : Query h.Name) (r : Result CachedResponse)
      (st : AppState m)
      → Ensures (ServedPermits st.inflight) (finish_load h m request query r st)
  unfolding finish_load
  finish_load-permits request query (ok c) st = refl
  finish_load-permits request query (err x) st = refl
  finish_load-permits request query panic st = tt

  serve-permits :
      (env : Env m) (wire : Bytes) (request : Message h.Name) (query : Query h.Name)
      (st : AppState m)
      → Ensures (ServedPermits st.inflight) (serve h m env wire request query st)
  serve-permits env wire request query st =
      serve-Ensures h m env wire request query st (ServedPermits st.inflight)
        (λ _. unfold serve_blocked in refl) (λ v _. unfold serve_cached in refl)
        (λ _.
          finish_load-permits request query (loaded h m env wire query st).result
            (after_load h m (key_of h m query) (loaded h m env wire query st) st))

  log_query-permits :
      (env : Env m) (client : Option Text) (query : Query h.Name) (action : Action)
      (st : AppState m)
      → (log_query h m env client query action st).inflight ≡ st.inflight
  unfolding log_query
  log_query-permits env client query action st = elim (Option-cases st.qlog) [
    | inl off ↦ rw off refl
    | inr (held, on) ↦ rw on refl
  ]

  pub handle-permits :
      (env : Env m) (wire : Bytes) (client : Option Text) (st st' : AppState m) (out : Option Bytes)
      → handle h m env wire client st ≡ ok (st', out)
      → st'.inflight ≡ st.inflight
  unfolding handle
  handle-permits env wire client st st' none e = rw (handle-drops h m env wire client st st' e) refl
  handle-permits env wire client st st' (some out) e = elim (Option-cases (h.from_vec wire)) [
    | inl garbage ↦ absurd (ground (arith, garbage, e))
    | inr (request, parsed) ↦
        let a = handle-Answered h m env wire client st st' request out parsed e in
        let same =
          Ensures-ok (ServedPermits st.inflight) _ a.served
            (unfold count_query in serve-permits env wire request a.query (count_query h m st))
            a.serves in
        rw a.state (log_query-permits env client a.query a.served.action a.served.state ∙ same)
  ]

  -- The permits that are free and the tasks that hold one.
  abbrev pub permits : Udp m → ℕ
  permits w = w.state.inflight + length w.tasks

  receive-permits : (t : Task) (w : Udp m) → permits (receive h m t w) ≡ permits w
  unfolding receive try_acquire count_dropped
  receive-permits t w = elim (inflight-cases w.state.inflight) [
    | inl full ↦ ground (arith, full)
    | inr (n, free) ↦ ground (arith, free)
  ]

  finish-permits :
      (env : Env m) (t : Task) (w : Udp m)
      → (finish h m env t w).state.inflight ≡ suc w.state.inflight
  unfolding finish count_query
  finish-permits env t w = elim (Result-cases (handle h m env t.data_in (some t.peer) w.state)) [
    | inl ((st, out), served) ↦
        ground (arith, served, handle-permits env t.data_in (some t.peer) w.state st out served)
    | inr (inl (x, failed)) ↦ ground (arith, failed)
    | inr (inr died) ↦ ground (arith, died)
  ]

  Step-permits : (w w' : Udp m) → Step h m w w' → permits w' ≡ permits w
  Step-permits _ _ (arrives t w) = receive-permits t w
  Step-permits _ _ (ends env before after t w e) = omega (
    arith,
    finish-permits env t w,
    ap length e,
    length-append before after,
    length-append before (t ∷ after),
  )

  -- However datagrams arrive and tasks end, also by a panic, the free permits and the running tasks add
  -- up to what they added up to at the start.
  pub Runs-permits : (start w : Udp m) → Runs h m start w → permits w ≡ permits start
  Runs-permits start w start_at = refl
  Runs-permits start w (goes_on before step) = Step-permits _ w step ∙ Runs-permits start _ before
