-- ===== src/Dns/Server/Steps.antt =====
-- The steps of the process: messages arrive on both listeners of src/dns.rs, tasks go on, the admin
-- API of src/web.rs answers requests, the writers of src/cache.rs and src/qlog.rs take what was sent
-- to them, and moka drops entries. Every order of them is a run.
use rust_dns.Web.{Outside}
use rust_dns.Web.Router.{app, Extractors, HttpRequest}
use rust_dns.Dns.Server.{ignored, answered, loading, Load, complete, begin, Begun}
use rust_dns.Base.{ℕ, suc, ◌≡◌, Option, none, some, List, ◌∷◌, ◌++◌, take}
use rust_dns.Result.{ok, err, panic, Result}
use rust_dns.Text.{Text}
use rust_dns.Bytes.{Bytes}
use rust_dns.State.{Moka, AppState, LogRecord}
use rust_dns.Text.Unicode.{Unicode}
use rust_dns.Hickory.{Hickory}
use rust_dns.Dns.{Env}
use rust_dns.Dns.Listen.{try_acquire, release, count_dropped}
use rust_dns.Cache.Store.{Item}

-- Where a message came from: a datagram from an address and a port, or one of the connections of an
-- address.
pub data Origin : Type 0 where
  datagram : Text → ℕ → Origin
  connection : ℕ → Text → Origin

-- `peer.ip()`, which the log shows.
unfoldable pub ip_of : Origin → Text
ip_of (datagram ip port) = ip
ip_of (connection n ip) = ip

-- What a listener's buffer holds of a message: 4096 bytes of a datagram.
unfoldable pub buffered : Origin → Bytes → Bytes
buffered (datagram ip port) wire = take 4096 wire
buffered (connection n ip) wire = wire

-- A task that holds a permit has not begun its query yet, or it waits for a load.
pub data Phase (Name : Type 0) : Type 0 where
  spawned : Phase Name
  waits : Load Name → Phase Name

pub record Running (Name : Type 0) : Type 0 where
  pub origin : Origin
  pub data_in : Bytes
  pub phase : Phase Name

-- The process. `received`, `sent` and `panics` are its history: the messages that were taken, the
-- replies, and the tasks that ended in a panic.
pub record Process (m : Moka) (Name : Type 0) : Type 0 where
  pub state : AppState m
  pub tasks : List (Running Name)
  pub received : List (Origin × Bytes)
  pub sent : List (Origin × Bytes)
  pub panics : ℕ

module _ ⦃u : Unicode⦄ (h : Hickory) (m : Moka) where
  -- A message is taken if a permit is free, and counted as dropped otherwise.
  unfoldable pub admit : Origin → Bytes → Process m h.Name → Process m h.Name
  unfolding try_acquire count_dropped
  admit o wire p = elim (try_acquire m p.state) [
    | none ↦ record p { state = count_dropped m p.state }
    | some st ↦ record p {
      state = st;
      tasks = (record { origin = o; data_in = buffered o wire; phase = spawned }) ∷ p.tasks;
      received = (o, buffered o wire) ∷ p.received;
    }
  ]

  -- The end of a task gives its permit back.
  abbrev pub ends :
      Running h.Name
      → Option Bytes
      → List (Running h.Name)
      → AppState m
      → Process m h.Name
      → Process m h.Name
  ends t none others st p = record p { state = release m st; tasks = others }
  ends t (some out) others st p = record p {
    state = release m st;
    tasks = others;
    sent = (t.origin, out) ∷ p.sent;
  }

  abbrev pub begun :
      Running h.Name
      → List (Running h.Name)
      → List (Running h.Name)
      → Process m h.Name
      → Begun (AppState m) h.Name
      → Process m h.Name
  begun t before after p ignored = ends t none (before ++ after) p.state p
  begun t before after p (answered st out) = ends t (some out) (before ++ after) st p
  begun t before after p (loading st l) = record p {
    state = st;
    tasks = before ++ ((record t { phase = waits l }) ∷ after);
  }

  -- A task begins its query; `before` and `after` are the other tasks.
  unfoldable pub start :
      Env m
      → Running h.Name
      → List (Running h.Name)
      → List (Running h.Name)
      → Process m h.Name
      → Process m h.Name
  unfolding ip_of
  start env t before after p =
      begun t before after p (begin h m env t.data_in (some (ip_of t.origin)) p.state)

  abbrev pub completed :
      Running h.Name
      → List (Running h.Name)
      → Process m h.Name
      → Result (AppState m × Bytes)
      → Process m h.Name
  completed t others p (ok (st, out)) = ends t (some out) others st p
  completed t others p (err e) = ends t none others p.state p
  completed t others p panic = ends t none others p.state (record p { panics = suc p.panics })

  -- A load ends, for a task that waited for it.
  unfoldable pub finish_wait :
      Env m
      → Running h.Name
      → Load h.Name
      → List (Running h.Name)
      → Process m h.Name
      → Process m h.Name
  finish_wait env t l others p = completed t others p (complete h m env l p.state)

  abbrev pub with_state : AppState m → Process m h.Name → Process m h.Name
  with_state st p = record p { state = st }

  -- One step. The upstream that a load uses is the one that is set when its turn comes.
  pub data Advances : Process m h.Name → Process m h.Name → Type 0 where
    arrives : (o : Origin) (wire : Bytes) (p : Process m h.Name) → Advances p (admit o wire p)
    starts :
        (env : Env m) (before after : List (Running h.Name)) (t : Running h.Name)
        (p : Process m h.Name)
        → t.phase ≡ spawned
        → p.tasks ≡ before ++ (t ∷ after)
        → Advances p (start env t before after p)
    has_turn :
        (before after : List (Running h.Name)) (t : Running h.Name) (l : Load h.Name)
        (p : Process m h.Name)
        → t.phase ≡ waits l
        → p.tasks ≡ before ++ (t ∷ after)
        → Advances p (record p {
          tasks =
              before
              ++ ((record t { phase = waits (record l { upstream = p.state.upstream }) }) ∷ after);
        })
    loads :
        (env : Env m) (before after : List (Running h.Name)) (t : Running h.Name) (l : Load h.Name)
        (p : Process m h.Name)
        → t.phase ≡ waits l
        → p.tasks ≡ before ++ (t ∷ after)
        → Advances p (finish_wait env t l (before ++ after) p)
    requests :
        (io : Outside) (x : Extractors) (index : Text) (run_query : Text → ℕ → Option Text)
        (elapsed : ℕ) (req : HttpRequest) (p : Process m h.Name)
        → Advances p (with_state (app m io x index run_query elapsed req p.state).0 p)
    persists :
        (item : Item) (rest : List Item) (p : Process m h.Name)
        → p.state.persist ≡ item ∷ rest
        → Advances p (with_state (record p.state { persist = rest }) p)
    logs :
        (r : LogRecord) (rest : List LogRecord) (p : Process m h.Name)
        → p.state.qlog ≡ some (r ∷ rest)
        → Advances p (with_state (record p.state { qlog = some rest }) p)
    evicts :
        (c : m.Cache) (p : Process m h.Name)
        → Advances p (with_state (record p.state { cache = c }) p)

  -- The states that follow from a first one.
  pub data Evolves (first : Process m h.Name) : Process m h.Name → Type 0 where
    no_step : Evolves first first
    one_more : {p p' : Process m h.Name} → Evolves first p → Advances p p' → Evolves first p'
