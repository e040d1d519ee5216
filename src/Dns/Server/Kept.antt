-- ===== src/Dns/Server/Kept.antt =====
-- The invariant of Dns.Server.Checked over all steps of the process.
use rust_dns.Web.{
  done, refused, Outside, ConfigUpdate, Reply, set_config, set_blocklist, ConfigView,
}
use rust_dns.Dns.Server.Steps.{
  arrives, starts, has_turn, loads, requests, persists, logs, evicts, no_step, one_more, waits,
  Process, Running, Origin, with_state, begun, completed, start, Evolves, finish_wait, Advances,
  ip_of,
}
use rust_dns.Web.Router.Cases.{app-cases}
use rust_dns.Base.{
  ℕ, suc, ◌≡◌, inl, inr, refl, ap, ◌∙◌, none, some, List, [], ◌∷◌, ◌++◌, length, Bool-cases, ltb,
  In, All, All-append,
}
use rust_dns.Result.{Result, ok, err, panic}
use rust_dns.Dns.Server.{ignored, answered, loading, Begun, Load}
use rust_dns.Text.Unicode.{Unicode}
use rust_dns.Hickory.{Hickory}
use rust_dns.State.{Moka, try_send, AppState, persist_channel_cap}
use rust_dns.Config.{WebConfig}
use rust_dns.Dns.{Env, key_of}
use rust_dns.Dns.Server.Checked.{
  IsKept, Fits, LoadOf, task_of, ends-IsKept, Fits-setup, IsChecked, waits-IsKept, admit-IsKept,
}
use rust_dns.Cache.Store.{Item}
use rust_dns.Bytes.{Bytes}
use rust_dns.Dns.Server.Steady.{BeginsSteady, begin-BeginsSteady}
use rust_dns.Cache.{CachedResponse}
use rust_dns.Dns.Server.Queued.{Queues, StoresFor, complete-StoresFor}
use rust_dns.Upstream.{resolve}
use rust_dns.Upstream.Resolve.{resolve_sound}
use rust_dns.Text.{Text}
use rust_dns.Web.Update.{set_config-Outcome, Outcome}
use rust_dns.Web.Untouched.{set_blocklist-LeavesAlone, set_config-LeavesAlone, set_blocklist_setup}

module _ ⦃u : Unicode⦄ (h : Hickory) (m : Moka) (first_web : WebConfig) (lo hi : ℕ) where
  abbrev Kept : Process m h.Name → Type 0
  Kept = IsKept h m first_web lo hi

  begun-IsKept :
      (before after : List (Running h.Name)) (t : Running h.Name) (p : Process m h.Name)
      (b : Begun (AppState m) h.Name)
      → p.tasks ≡ before ++ (t ∷ after)
      → BeginsSteady h m t.data_in p.state b
      → Kept p
      → Kept (begun h m t before after p b)
  begun-IsKept before after t p ignored at s k =
      ends-IsKept h m first_web lo hi t none before after p.state p at
        (record { web = k.web; bounds = k.bounds; queue = k.queue }) k
  begun-IsKept before after t p (answered st out) at s k =
      ends-IsKept h m first_web lo hi t (some out) before after st p at
        (Fits-setup h m first_web lo hi p.received p.state st p refl k s.setup
          (rw s.persist k.queue))
        k
  begun-IsKept before after t p (loading st l) at (s, f) k =
      waits-IsKept h m first_web lo hi before after t l st p at
        (record {
          same_wire = f.same_wire;
          parsed = f.parsed;
          asked = f.asked;
          bounds = rw f.upstream k.bounds;
        })
        (Fits-setup h m first_web lo hi p.received p.state st p refl k s.setup
          (rw s.persist k.queue))
        k

  -- What the upstream gave for the message of a task is checked.
  resolve-IsChecked :
      (env : Env m) (t : Running h.Name) (l : Load h.Name) (received : List (Origin × Bytes))
      (v : CachedResponse)
      → In (t.origin, t.data_in) received
      → LoadOf h m first_web lo hi t.data_in l
      → resolve h env.net l.upstream env.now l.wire ≡ ok v
      → IsChecked h m first_web lo hi received (key_of h m l.query, v)
  resolve-IsChecked env t l received v taken f got =
      let (a, _, _, floor, ceiling) = resolve_sound h env.net l.upstream env.now l.wire v got in
      record {
        origin = t.origin;
        wire = t.data_in;
        taken = taken;
        request = l.request;
        query = l.query;
        parsed = f.parsed;
        asked = f.asked;
        key = refl;
        valid = rw f.same_wire at a.valid;
        floor = rw f.bounds.0 at floor;
        ceiling = rw f.bounds.1 at ceiling;
      }

  All-try_send :
      (P : Item → Type 0) (cap : ℕ) (item : Item) (held : List Item)
      → P item
      → All P held
      → All P (try_send cap item held)
  unfolding try_send
  All-try_send P cap item held p all = elim (Bool-cases (ltb (length held) cap)) [
    | inl room ↦ rw (room, try_send) (All-append P held (item ∷ []) all (p, tt))
    | inr full ↦ rw (full, try_send) all
  ]

  queue_of :
      (env : Env m) (t : Running h.Name) (l : Load h.Name) (p : Process m h.Name)
      (held' : List Item)
      → In (t.origin, t.data_in) p.received
      → LoadOf h m first_web lo hi t.data_in l
      → Queues h m
          (key_of h m l.query)
          (resolve h env.net l.upstream env.now l.wire)
          p.state.persist
          held'
      → Kept p
      → All (IsChecked h m first_web lo hi p.received) held'
  queue_of env t l p held' taken f (inl same) k = rw same k.queue
  queue_of env t l p held' taken f (inr (v, sent, got)) k = rw sent (
      All-try_send (IsChecked h m first_web lo hi p.received) persist_channel_cap
        (key_of h m l.query, v) p.state.persist (resolve-IsChecked env t l p.received v taken f got)
        k.queue)

  completed-IsKept :
      (env : Env m) (before after : List (Running h.Name)) (t : Running h.Name) (l : Load h.Name)
      (p : Process m h.Name) (r : Result (AppState m × Bytes))
      → p.tasks ≡ before ++ (t ∷ after)
      → LoadOf h m first_web lo hi t.data_in l
      → StoresFor h m env l p.state r
      → Kept p
      → Kept (completed h m t (before ++ after) p r)
  completed-IsKept env before after t l p (ok (st, out)) at f (setup, queues) k =
      let (taken, _) = task_of h m first_web lo hi before after t p at k in
      ends-IsKept h m first_web lo hi t (some out) before after st p at
        (Fits-setup h m first_web lo hi p.received p.state st p refl k setup
          (queue_of env t l p st.persist taken f queues k))
        k
  completed-IsKept env before after t l p (err e) at f s k =
      ends-IsKept h m first_web lo hi t none before after p.state p at
        (record { web = k.web; bounds = k.bounds; queue = k.queue }) k
  completed-IsKept env before after t l p panic at f s k =
      ends-IsKept h m first_web lo hi t none before after p.state
        (record p { panics = suc p.panics }) at
        (record { web = k.web; bounds = k.bounds; queue = k.queue })
        (record { web = k.web; bounds = k.bounds; queue = k.queue; tasks = k.tasks })

  waits-LoadOf :
      (before after : List (Running h.Name)) (t : Running h.Name) (l : Load h.Name)
      (p : Process m h.Name)
      → t.phase ≡ waits l
      → p.tasks ≡ before ++ (t ∷ after)
      → Kept p
      → LoadOf h m first_web lo hi t.data_in l
  waits-LoadOf before after t l p waits_for at k =
      let (_, f) = task_of h m first_web lo hi before after t p at k in rw waits_for at f

  with_state-IsKept :
      (st : AppState m) (p : Process m h.Name)
      → Fits h m first_web lo hi p.received st
      → Kept p
      → Kept (with_state h m st p)
  with_state-IsKept st p f k = record {
    web = f.web;
    bounds = f.bounds;
    queue = f.queue;
    tasks = k.tasks;
  }

  setup_of :
      (io : Outside) (body : ConfigUpdate) (st : AppState m) (r : AppState m × Reply ConfigView)
      → Outcome m io body st r
      → (r.0.config.web ≡ st.config.web)
        × (r.0.upstream.min_ttl ≡ st.upstream.min_ttl)
        × (r.0.upstream.max_ttl ≡ st.upstream.max_ttl)
  setup_of io body st (st', done view) (a, _) = (a.same_web, a.same_min_ttl, a.same_max_ttl)
  setup_of io body st (st', refused e) (same, fault) = (
    ap (λ s. s.config.web) same,
    ap (λ s. s.upstream.min_ttl) same,
    ap (λ s. s.upstream.max_ttl) same,
  )

  replaces_config-IsKept :
      (io : Outside) (body : ConfigUpdate) (p : Process m h.Name)
      → Kept p
      → Kept (with_state h m (set_config m io body p.state).0 p)
  replaces_config-IsKept io body p k =
      let (web, min, max) =
        setup_of io body p.state (set_config m io body p.state)
          (set_config-Outcome m io body p.state) in
      let alone = set_config-LeavesAlone m io body p.state in
      with_state-IsKept (set_config m io body p.state).0 p
        (record {
          web = web ∙ k.web;
          bounds = (min ∙ k.bounds.0, max ∙ k.bounds.1);
          queue = rw alone.persist k.queue;
        })
        k

  replaces_blocklist-IsKept :
      (io : Outside) (body : Text) (p : Process m h.Name)
      → Kept p
      → Kept (with_state h m (set_blocklist m io body p.state).0 p)
  replaces_blocklist-IsKept io body p k =
      let alone = set_blocklist-LeavesAlone m io body p.state in
      let setup = set_blocklist_setup m io body p.state in
      with_state-IsKept (set_blocklist m io body p.state).0 p
        (record {
          web = ap (λ c. c.web) setup.0 ∙ k.web;
          bounds = rw setup.1 k.bounds;
          queue = rw alone.persist k.queue;
        })
        k

  Advances-IsKept : (p p' : Process m h.Name) → Advances h m p p' → Kept p → Kept p'
  unfolding start finish_wait
  Advances-IsKept _ _ (arrives o wire p) k = admit-IsKept h m first_web lo hi o wire p k
  Advances-IsKept _ _ (starts env before after t p fresh at) k =
      begun-IsKept before after t p _ at
        (begin-BeginsSteady h m env t.data_in (some (ip_of t.origin)) p.state) k
  Advances-IsKept _ _ (has_turn before after t l p waits_for at) k =
      let f = waits-LoadOf before after t l p waits_for at k in
      waits-IsKept h m first_web lo hi before after t (record l { upstream = p.state.upstream })
        p.state p at
        (record { same_wire = f.same_wire; parsed = f.parsed; asked = f.asked; bounds = k.bounds })
        (record { web = k.web; bounds = k.bounds; queue = k.queue }) k
  Advances-IsKept _ _ (loads env before after t l p waits_for at) k =
      completed-IsKept env before after t l p _ at (waits-LoadOf before after t l p waits_for at k)
        (complete-StoresFor h m env l p.state) k
  Advances-IsKept _ _ (requests io x index run_query elapsed req p) k =
      app-cases m io x index run_query elapsed (λ st. Kept (with_state h m st p)) p.state k
        (λ body. replaces_blocklist-IsKept io body p k) (λ body. replaces_config-IsKept io body p k)
        req
  Advances-IsKept _ _ (persists item rest p at) k =
      let all : All (IsChecked h m first_web lo hi p.received) (item ∷ rest) = rw at at k.queue in
      with_state-IsKept _ p (record { web = k.web; bounds = k.bounds; queue = all.1 }) k
  Advances-IsKept _ _ (logs r rest p at) k =
      with_state-IsKept _ p (record { web = k.web; bounds = k.bounds; queue = k.queue }) k
  Advances-IsKept _ _ (evicts c p) k =
      with_state-IsKept _ p (record { web = k.web; bounds = k.bounds; queue = k.queue }) k

  pub Evolves-IsKept : (first p : Process m h.Name) → Evolves h m first p → Kept first → Kept p
  Evolves-IsKept first p no_step k = k
  Evolves-IsKept first p (one_more before step) k =
      Advances-IsKept _ p step (Evolves-IsKept first _ before k)
