-- ===== src/Dns/Server/Authority.antt =====
-- Who changes the configuration and the blocklist of the process.
use rust_dns.Base.{is_empty, ◌≡◌, ◌⊎◌, inl, inr, refl, ap, false, some, List, ◌++◌}
use rust_dns.Dns.Server.Steps.{
  arrives, starts, has_turn, loads, requests, persists, logs, evicts, admit, Running, start,
  Process, finish_wait, Advances, Origin, begun, completed, ip_of,
}
use rust_dns.Dns.Server.{ignored, answered, loading, Load, Begun}
use rust_dns.Result.{Result, ok, err, panic}
use rust_dns.Text.Unicode.{Unicode}
use rust_dns.Hickory.{Hickory}
use rust_dns.State.{Moka, AppState}
use rust_dns.Dns.{Env}
use rust_dns.Text.{Text}
use rust_dns.Dns.Listen.{try_acquire, count_dropped, inflight-cases}
use rust_dns.Bytes.{Bytes}
use rust_dns.Web.Router.Guard.{IsUpdate, app-Guarded}
use rust_dns.Dns.Server.Steady.{BeginsSteady, begin-BeginsSteady}
use rust_dns.Dns.Server.Queued.{StoresFor, complete-StoresFor}
use rust_dns.Web.Gate.{Presents}

module _ ⦃u : Unicode⦄ (h : Hickory) (m : Moka) where
  abbrev pub SameRules : AppState m → AppState m → Type 0
  SameRules st st' = (st'.config ≡ st.config) × (st'.blocklist ≡ st.blocklist)

  admit-SameRules :
      (o : Origin) (wire : Bytes) (p : Process m h.Name)
      → SameRules p.state (admit h m o wire p).state
  unfolding admit try_acquire count_dropped
  admit-SameRules o wire p = elim (inflight-cases p.state.inflight) [
    | inl full ↦ rw (full, admit, try_acquire) (refl, refl)
    | inr (n, free) ↦ rw (free, admit, try_acquire) (refl, refl)
  ]

  begun-SameRules :
      (before after : List (Running h.Name)) (t : Running h.Name) (p : Process m h.Name)
      (b : Begun (AppState m) h.Name)
      → BeginsSteady h m t.data_in p.state b
      → SameRules p.state (begun h m t before after p b).state
  begun-SameRules before after t p ignored s = (refl, refl)
  begun-SameRules before after t p (answered st out) s = (s.setup.config, s.setup.blocklist)
  begun-SameRules before after t p (loading st l) (s, f) = (s.setup.config, s.setup.blocklist)

  completed-SameRules :
      (env : Env m) (others : List (Running h.Name)) (t : Running h.Name) (l : Load h.Name)
      (p : Process m h.Name) (r : Result (AppState m × Bytes))
      → StoresFor h m env l p.state r
      → SameRules p.state (completed h m t others p r).state
  completed-SameRules env others t l p (ok (st, out)) (setup, queues) =
      (setup.config, setup.blocklist)
  completed-SameRules env others t l p (err e) s = (refl, refl)
  completed-SameRules env others t l p panic s = (refl, refl)

  -- The step is a request that updates one of them and has the token in one of its headers.
  abbrev pub Authorized : Text → (p p' : Process m h.Name) → Advances h m p p' → Type 0
  Authorized token p p' (requests io x index run_query elapsed req q) =
      IsUpdate req × Presents token req.head_part
  Authorized token p p' (arrives o wire q) = ⊥
  Authorized token p p' (starts env before after t q fresh at) = ⊥
  Authorized token p p' (has_turn before after t l q waits_for at) = ⊥
  Authorized token p p' (loads env before after t l q waits_for at) = ⊥
  Authorized token p p' (persists item rest q at) = ⊥
  Authorized token p p' (logs r rest q at) = ⊥
  Authorized token p p' (evicts c q) = ⊥

  pub Advances-SameRules :
      (p p' : Process m h.Name)
      → is_empty p.state.config.web.admin_token ≡ false
      → (step : Advances h m p p')
      → SameRules p.state p'.state ⊎ Authorized p.state.config.web.admin_token p p' step
  unfolding start finish_wait
  Advances-SameRules _ _ secret (arrives o wire p) = inl (admit-SameRules o wire p)
  Advances-SameRules _ _ secret (starts env before after t p fresh at) = inl (
      begun-SameRules before after t p _
        (begin-BeginsSteady h m env t.data_in (some (ip_of t.origin)) p.state))
  Advances-SameRules _ _ secret (has_turn before after t l p waits_for at) = inl (refl, refl)
  Advances-SameRules _ _ secret (loads env before after t l p waits_for at) =
      inl (completed-SameRules env (before ++ after) t l p _ (complete-StoresFor h m env l p.state))
  Advances-SameRules _ _ secret (requests io x index run_query elapsed req p) =
      elim (app-Guarded m io x index run_query elapsed req p.state secret).0 [
        | inl same ↦ inl (ap (λ st. st.config) same, ap (λ st. st.blocklist) same)
        | inr update ↦ inr update
      ]
  Advances-SameRules _ _ secret (persists item rest p at) = inl (refl, refl)
  Advances-SameRules _ _ secret (logs r rest p at) = inl (refl, refl)
  Advances-SameRules _ _ secret (evicts c p) = inl (refl, refl)
