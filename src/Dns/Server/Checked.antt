-- ===== src/Dns/Server/Checked.antt =====
-- What the process queues for the store, in whatever order its steps come.
use rust_dns.Base.{
  ℕ, ◌≡◌, ◌≤◌, inl, inr, refl, true, Option, none, some, List, ◌∷◌, ◌++◌, first?, In, here, there,
  All, All-map,
}
use rust_dns.Dns.Server.Steps.{
  spawned, waits, Origin, admit, Running, Phase, Process, ends, buffered,
}
use rust_dns.Dns.Server.{Load}
use rust_dns.Text.Unicode.{Unicode}
use rust_dns.Hickory.{Hickory, Message, Query}
use rust_dns.State.{Moka, AppState}
use rust_dns.Config.{WebConfig}
use rust_dns.Upstream.{Upstream, valid_response}
use rust_dns.Bytes.{Bytes}
use rust_dns.Cache.Store.{Item}
use rust_dns.Dns.Listen.{try_acquire, count_dropped, inflight-cases}
use rust_dns.Dns.Server.Tasks.{others, instead}
use rust_dns.Dns.Server.Steady.{KeepsSetup}
use rust_dns.Dns.{key_of}

module _ ⦃u : Unicode⦄ (h : Hickory) (m : Moka) (first_web : WebConfig) (lo hi : ℕ) where
  -- An entry that is a valid response to a message that was taken, under the key of its question, and
  -- with a TTL between the floor and the ceiling.
  pub record IsChecked (received : List (Origin × Bytes)) (item : Item) : Type 0 where
    pub origin : Origin
    pub wire : Bytes
    pub taken : In (origin, wire) received
    pub request : Message h.Name
    pub query : Query h.Name
    pub parsed : h.from_vec wire ≡ some request
    pub asked : first? request.queries ≡ some query
    pub key : item.0 ≡ key_of h m query
    pub valid : valid_response h wire item.1.wire ≡ true
    pub floor : lo ≤ item.1.ttl_secs
    pub ceiling : item.1.ttl_secs ≤ hi

  abbrev pub Bounds : Upstream → Type 0
  Bounds up = (up.min_ttl ≡ lo) × (up.max_ttl ≡ hi)

  pub record LoadOf (wire : Bytes) (l : Load h.Name) : Type 0 where
    pub same_wire : l.wire ≡ wire
    pub parsed : h.from_vec wire ≡ some l.request
    pub asked : first? l.request.queries ≡ some l.query
    pub bounds : Bounds l.upstream

  abbrev pub PhaseOf : Bytes → Phase h.Name → Type 0
  PhaseOf wire spawned = Unit
  PhaseOf wire (waits l) = LoadOf wire l

  abbrev pub TaskOf : List (Origin × Bytes) → Running h.Name → Type 0
  TaskOf received t = In (t.origin, t.data_in) received × PhaseOf t.data_in t.phase

  -- The web section of the configuration, with the admin token, and the bounds of TTLs never change,
  -- and every entry that is queued is checked.
  pub record IsKept (p : Process m h.Name) : Type 0 where
    pub web : p.state.config.web ≡ first_web
    pub bounds : Bounds p.state.upstream
    pub queue : All (IsChecked p.received) p.state.persist
    pub tasks : All (TaskOf p.received) p.tasks

  TaskOf-more :
      (r : Origin × Bytes) (received : List (Origin × Bytes)) (t : Running h.Name)
      → TaskOf received t
      → TaskOf (r ∷ received) t
  TaskOf-more r received t (taken, k) = (there taken, k)

  IsChecked-more :
      (r : Origin × Bytes) (received : List (Origin × Bytes)) (item : Item)
      → IsChecked received item
      → IsChecked (r ∷ received) item
  IsChecked-more r received item c = record {
    origin = c.origin;
    wire = c.wire;
    taken = there c.taken;
    request = c.request;
    query = c.query;
    parsed = c.parsed;
    asked = c.asked;
    key = c.key;
    valid = c.valid;
    floor = c.floor;
    ceiling = c.ceiling;
  }

  pub admit-IsKept :
      (o : Origin) (wire : Bytes) (p : Process m h.Name) → IsKept p → IsKept (admit h m o wire p)
  unfolding admit try_acquire count_dropped
  admit-IsKept o wire p k = elim (inflight-cases p.state.inflight) [
    | inl full ↦
        rw (full, admit, try_acquire)
          (record { web = k.web; bounds = k.bounds; queue = k.queue; tasks = k.tasks })
    | inr (n, free) ↦
        let r : Origin × Bytes = (o, buffered o wire) in
        rw (free, admit, try_acquire)
          (record {
            web = k.web;
            bounds = k.bounds;
            queue = All-map (IsChecked-more r p.received) p.state.persist k.queue;
            tasks = ((here refl, tt), All-map (TaskOf-more r p.received) p.tasks k.tasks);
          })
  ]

  -- What the state of a step must meet.
  pub record Fits (received : List (Origin × Bytes)) (st : AppState m) : Type 0 where
    pub web : st.config.web ≡ first_web
    pub bounds : Bounds st.upstream
    pub queue : All (IsChecked received) st.persist

  pub ends-IsKept :
      (t : Running h.Name) (out : Option Bytes) (before after : List (Running h.Name))
      (st : AppState m) (p : Process m h.Name)
      → p.tasks ≡ before ++ (t ∷ after)
      → Fits p.received st
      → IsKept p
      → IsKept (ends h m t out (before ++ after) st p)
  ends-IsKept t none before after st p at f k =
      let all : All (TaskOf p.received) (before ++ (t ∷ after)) = rw at at k.tasks in
      record {
        web = f.web;
        bounds = f.bounds;
        queue = f.queue;
        tasks = (others (TaskOf p.received) before after t all).1;
      }
  ends-IsKept t (some out) before after st p at f k =
      let all : All (TaskOf p.received) (before ++ (t ∷ after)) = rw at at k.tasks in
      record {
        web = f.web;
        bounds = f.bounds;
        queue = f.queue;
        tasks = (others (TaskOf p.received) before after t all).1;
      }

  pub task_of :
      (before after : List (Running h.Name)) (t : Running h.Name) (p : Process m h.Name)
      → p.tasks ≡ before ++ (t ∷ after)
      → IsKept p
      → TaskOf p.received t
  task_of before after t p at k =
      let all : All (TaskOf p.received) (before ++ (t ∷ after)) = rw at at k.tasks in
      (others (TaskOf p.received) before after t all).0

  pub waits-IsKept :
      (before after : List (Running h.Name)) (t : Running h.Name) (l : Load h.Name)
      (st : AppState m) (p : Process m h.Name)
      → p.tasks ≡ before ++ (t ∷ after)
      → LoadOf t.data_in l
      → Fits p.received st
      → IsKept p
      → IsKept (record p { state = st; tasks = before ++ ((record t { phase = waits l }) ∷ after) })
  waits-IsKept before after t l st p at loads_it f k =
      let t' : Running h.Name = record t { phase = waits l } in
      let all : All (TaskOf p.received) (before ++ (t ∷ after)) = rw at at k.tasks in
      let (taken, _) = task_of before after t p at k in
      record {
        web = f.web;
        bounds = f.bounds;
        queue = f.queue;
        tasks = instead (TaskOf p.received) before after t t' (taken, loads_it) all;
      }

  pub Fits-setup :
      (received : List (Origin × Bytes)) (st st' : AppState m) (p : Process m h.Name)
      → p.state ≡ st
      → IsKept p
      → KeepsSetup h m st st'
      → All (IsChecked received) st'.persist
      → Fits received st'
  Fits-setup received st st' p same k setup queue =
      let start = rw same at k.web in
      let limits = rw same at k.bounds in
      record { web = rw setup.config start; bounds = rw setup.upstream limits; queue = queue }
