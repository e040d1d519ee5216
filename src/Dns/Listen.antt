-- ===== src/Dns/Listen.antt =====
-- src/dns.rs: the two listeners. A packet is taken while a permit of `inflight` is free, which its
-- task holds until its reply is sent.
use rust_dns.Base.{
  ℕ, zero, suc, ◌≡◌, ◌⊎◌, inl, inr, refl, Option, none, some, List, [], ◌∷◌, ◌++◌, take,
  if◌then◌else◌, ltb,
}
use rust_dns.Result.{ok, err, panic}
use rust_dns.State.{Moka, AppState}
use rust_dns.Bytes.{Bytes}
use rust_dns.Text.Unicode.{Unicode}
use rust_dns.Stats.{incr}
use rust_dns.Text.{Text}
use rust_dns.Hickory.{Hickory}
use rust_dns.Dns.{handle, Env, ok, err, count_query}
use rust_dns.Upstream.{unwrap_or}

-- Whether a permit is free.
pub inflight-cases : (n : ℕ) → (n ≡ 0) ⊎ ((k : ℕ) × (n ≡ suc k))
inflight-cases zero = inl refl
inflight-cases (suc k) = inr (k, refl)

unfoldable pub worker_count : ℕ → Option ℕ → ℕ
worker_count configured parallelism =
    if ltb 0 configured then configured else unwrap_or parallelism 1

module _ (m : Moka) where
  -- `try_acquire_owned`: the permit, if one is free, taken.
  unfoldable pub try_acquire : AppState m → Option (AppState m)
  try_acquire st = elim st.inflight [ zero ↦ none | suc n ↦ some (record st { inflight = n }) ]

  -- The permit is dropped.
  abbrev pub release : AppState m → AppState m
  release st = record st { inflight = suc st.inflight }

  unfoldable pub count_dropped : AppState m → AppState m
  unfolding incr
  count_dropped st = record st { stats = record st.stats { dropped = incr st.stats.dropped } }

-- A task that a worker has spawned: the datagram and where it came from.
pub record Task : Type 0 where
  pub data_in : Bytes
  pub peer : Text

-- One side of the UDP listener: its state, the tasks that run, and the replies sent.
pub record Udp (m : Moka) : Type 0 where
  pub state : AppState m
  pub tasks : List Task
  pub sent : List (Text × Bytes)

module _ ⦃u : Unicode⦄ (h : Hickory) (m : Moka) where
  -- A datagram arrives; the socket's buffer holds 4096 bytes of it.
  unfoldable pub receive : Task → Udp m → Udp m
  unfolding try_acquire count_dropped
  receive t w = elim (try_acquire m w.state) [
    | none ↦ record w { state = count_dropped m w.state }
    | some st ↦ record w {
      state = st;
      tasks = (record t { data_in = take 4096 t.data_in }) ∷ w.tasks;
    }
  ]

  -- The end of a task: its reply, if it has one, is sent to its peer, and its permit is dropped,
  -- also if it panics, which happens after its query was counted.
  abbrev pub reply : Text → Option Bytes → List (Text × Bytes) → List (Text × Bytes)
  reply peer none sent = sent
  reply peer (some out) sent = sent ++ ((peer, out) ∷ [])

  unfoldable pub finish : Env m → Task → Udp m → Udp m
  unfolding handle count_query
  finish env t w = elim (handle h m env t.data_in (some t.peer) w.state) [
    | ok (st, out) ↦ record w { state = release m st; sent = reply t.peer out w.sent }
    | err e ↦ record w { state = release m w.state }
    | panic ↦ record w { state = release m (count_query h m w.state) }
  ]

  -- The steps of the listener: a datagram, or the end of a task, whichever it is.
  pub data Step : Udp m → Udp m → Type 0 where
    arrives : (t : Task) (w : Udp m) → Step w (receive t w)
    ends :
        (env : Env m) (before after : List Task) (t : Task) (w : Udp m)
        → w.tasks ≡ before ++ (t ∷ after)
        → Step w (record (finish env t w) { tasks = before ++ after })

  -- The listener's states that follow from a first one.
  pub data Runs (start : Udp m) : Udp m → Type 0 where
    start_at : Runs start start
    goes_on : {w w' : Udp m} → Runs start w → Step w w' → Runs start w'
