-- ===== src/Dns/Server/Invariant.antt =====
-- What stays true of the process, in whatever order its steps come.
use rust_dns.Dns.Server.Steps.{
  spawned, waits, arrives, starts, has_turn, loads, requests, persists, logs, evicts, no_step,
  one_more, Running, Process, admit, start, Origin, ends, ip_of, begun, finish_wait, completed,
  with_state, Advances, Evolves,
}
use rust_dns.Base.{
  ℕ, suc, ◌+◌, ◌≡◌, ◌≤◌, inl, inr, refl, ap, Option, none, some, List, ◌∷◌, ◌++◌, length, arith,
}
use rust_dns.Result.{Result, ok, err, panic}
use rust_dns.Web.Router.Cases.{app-cases}
use rust_dns.Dns.Server.{ignored, answered, loading, Begun, Load}
use rust_dns.Dns.Listen.{inflight-cases, try_acquire, count_dropped}
use rust_dns.Text.Unicode.{Unicode}
use rust_dns.Hickory.{Hickory}
use rust_dns.State.{Moka, AppState, persist_channel_cap}
use rust_dns.Dns.{Env}
use rust_dns.Dns.Server.Effects.{
  Keeps, begin-Begins, Begins, Completes, LogBound, complete-Completes,
}
use rust_dns.Bytes.{Bytes}
use rust_dns.Web.Untouched.{set_blocklist-LeavesAlone, set_config-LeavesAlone, LeavesAlone}
use rust_dns.Dns.Server.Tasks.{waiting, waits_now, length_middle, waiting-append}

module _ ⦃u : Unicode⦄ (h : Hickory) (m : Moka) (capacity : ℕ) where
  -- Free permits and running tasks make up the capacity; each counted query has its outcome counted,
  -- or a task that waits, or a panic; the channels hold no more than they may.
  pub record IsSound (p : Process m h.Name) : Type 0 where
    pub permits : p.state.inflight + length p.tasks ≡ capacity
    pub keeps : Keeps h m (waiting p.tasks + p.panics) p.state.inflight p.state

  admit-IsSound :
      (o : Origin) (wire : Bytes) (p : Process m h.Name) → IsSound p → IsSound (admit h m o wire p)
  unfolding admit try_acquire count_dropped
  admit-IsSound o wire p s = elim (inflight-cases p.state.inflight) [
    | inl full ↦
        rw (full, admit, try_acquire)
          (record {
            permits = s.permits;
            keeps = record {
              counted = s.keeps.counted;
              permits = refl;
              persist = s.keeps.persist;
              log = s.keeps.log;
            };
          })
    | inr (n, free) ↦
        rw (free, admit, try_acquire)
          (record {
            permits = omega (arith, s.permits, free);
            keeps = record {
              counted = omega (arith, s.keeps.counted);
              permits = refl;
              persist = s.keeps.persist;
              log = s.keeps.log;
            };
          })
  ]

  -- A task has ended, with its permit released.
  ends-IsSound :
      (t : Running h.Name) (out : Option Bytes) (before after : List (Running h.Name))
      (st : AppState m) (p : Process m h.Name)
      → p.tasks ≡ before ++ (t ∷ after)
      → p.state.inflight + length p.tasks ≡ capacity
      → Keeps h m (waiting (before ++ after) + p.panics) p.state.inflight st
      → IsSound (ends h m t out (before ++ after) st p)
  ends-IsSound t none before after st p at full k = record {
    permits = omega (arith, full, k.permits, ap length at, length_middle before t after);
    keeps = record { counted = k.counted; permits = refl; persist = k.persist; log = k.log };
  }
  ends-IsSound t (some out) before after st p at full k = record {
    permits = omega (arith, full, k.permits, ap length at, length_middle before t after);
    keeps = record { counted = k.counted; permits = refl; persist = k.persist; log = k.log };
  }

  Keeps-alike :
      {a b : ℕ} (free : ℕ) (st : AppState m) → a ≡ b → Keeps h m a free st → Keeps h m b free st
  Keeps-alike free st same k = rw (← same) k

  -- The tasks that wait, when one task is set apart.
  waiting_apart :
      (before after : List (Running h.Name)) (t : Running h.Name) (tasks : List (Running h.Name))
      (n k : ℕ)
      → tasks ≡ before ++ (t ∷ after)
      → waits_now t.phase ≡ k
      → waiting tasks + n ≡ k + (waiting (before ++ after) + n)
  waiting_apart before after t tasks n k at now =
      omega (arith, ap waiting at, waiting-append before t after, now)

  begun-IsSound :
      (before after : List (Running h.Name)) (t : Running h.Name) (p : Process m h.Name)
      (b : Begun (AppState m) h.Name)
      → t.phase ≡ spawned
      → p.tasks ≡ before ++ (t ∷ after)
      → IsSound p
      → Begins h m (waiting p.tasks + p.panics) p.state.inflight b
      → IsSound (begun h m t before after p b)
  begun-IsSound before after t p ignored fresh at s k =
      let same = waiting_apart before after t p.tasks p.panics 0 at (ap waits_now fresh) in
      ends-IsSound t none before after p.state p at s.permits
        (Keeps-alike _ p.state (omega (arith, same)) s.keeps)
  begun-IsSound before after t p (answered st out) fresh at s k =
      let same = waiting_apart before after t p.tasks p.panics 0 at (ap waits_now fresh) in
      ends-IsSound t (some out) before after st p at s.permits
        (Keeps-alike _ st (omega (arith, same)) k)
  begun-IsSound before after t p (loading st l) fresh at s k =
      let t' : Running h.Name = record t { phase = waits l } in
      let same = waiting_apart before after t p.tasks p.panics 0 at (ap waits_now fresh) in
      let more = waiting-append before t' after in
      record {
        permits = omega (
          arith,
          s.permits,
          k.permits,
          ap length at,
          length_middle before t after,
          length_middle before t' after,
        );
        keeps = record {
          counted = omega (arith, k.counted, same, more);
          permits = refl;
          persist = k.persist;
          log = k.log;
        };
      }

  start-IsSound :
      (env : Env m) (before after : List (Running h.Name)) (t : Running h.Name)
      (p : Process m h.Name)
      → t.phase ≡ spawned
      → p.tasks ≡ before ++ (t ∷ after)
      → IsSound p
      → IsSound (start h m env t before after p)
  unfolding start
  start-IsSound env before after t p fresh at s =
      begun-IsSound before after t p _ fresh at s
        (begin-Begins h m env t.data_in (some (ip_of t.origin)) _ _ p.state s.keeps)

  completed-IsSound :
      (before after : List (Running h.Name)) (t : Running h.Name) (p : Process m h.Name)
      (r : Result (AppState m × Bytes))
      → waiting p.tasks + p.panics ≡ suc (waiting (before ++ after) + p.panics)
      → p.tasks ≡ before ++ (t ∷ after)
      → IsSound p
      → Completes h m (waiting (before ++ after) + p.panics) p.state.inflight r
      → IsSound (completed h m t (before ++ after) p r)
  completed-IsSound before after t p (ok (st, out)) one at s k =
      ends-IsSound t (some out) before after st p at s.permits k
  completed-IsSound before after t p (err e) one at s k = absurd k
  completed-IsSound before after t p panic one at s k =
      ends-IsSound t none before after p.state (record p { panics = suc p.panics }) at s.permits
        (Keeps-alike _ p.state (omega (arith, one)) s.keeps)

  finish_wait-IsSound :
      (env : Env m) (before after : List (Running h.Name)) (t : Running h.Name) (l : Load h.Name)
      (p : Process m h.Name)
      → t.phase ≡ waits l
      → p.tasks ≡ before ++ (t ∷ after)
      → IsSound p
      → IsSound (finish_wait h m env t l (before ++ after) p)
  unfolding finish_wait
  finish_wait-IsSound env before after t l p waits_for at s =
      let same = waiting_apart before after t p.tasks p.panics 1 at (ap waits_now waits_for) in
      let one : waiting p.tasks + p.panics ≡ suc (waiting (before ++ after) + p.panics) =
        omega (arith, same) in
      completed-IsSound before after t p _ one at s
        (complete-Completes h m env l _ _ p.state (Keeps-alike _ p.state one s.keeps))

  -- A change of the state that leaves counters and permits alone, and only takes from channels.
  with_state-IsSound :
      (st : AppState m) (p : Process m h.Name)
      → st.stats ≡ p.state.stats
      → st.inflight ≡ p.state.inflight
      → length st.persist ≤ persist_channel_cap
      → LogBound st.qlog
      → IsSound p
      → IsSound (with_state h m st p)
  with_state-IsSound st p stats inflight persist log s = record {
    permits = rw inflight s.permits;
    keeps = record {
      counted = rw stats s.keeps.counted;
      permits = refl;
      persist = persist;
      log = log;
    };
  }

  LeavesAlone-IsSound :
      (st : AppState m) (p : Process m h.Name)
      → LeavesAlone m p.state st
      → IsSound p
      → IsSound (with_state h m st p)
  LeavesAlone-IsSound st p same s =
      with_state-IsSound st p same.stats same.inflight (rw same.persist s.keeps.persist)
        (rw same.qlog s.keeps.log) s

  Advances-IsSound : (p p' : Process m h.Name) → Advances h m p p' → IsSound p → IsSound p'
  Advances-IsSound _ _ (arrives o wire p) s = admit-IsSound o wire p s
  Advances-IsSound _ _ (starts env before after t p fresh at) s =
      start-IsSound env before after t p fresh at s
  Advances-IsSound _ _ (has_turn before after t l p waits_for at) s =
      let t' : Running h.Name = record t {
        phase = waits (record l { upstream = p.state.upstream });
      } in
      let same = waiting_apart before after t p.tasks p.panics 1 at (ap waits_now waits_for) in
      let more = waiting-append before t' after in
      record {
        permits = omega (
          arith,
          s.permits,
          ap length at,
          length_middle before t after,
          length_middle before t' after,
        );
        keeps = Keeps-alike _ p.state (omega (arith, same, more)) s.keeps;
      }
  Advances-IsSound _ _ (loads env before after t l p waits_for at) s =
      finish_wait-IsSound env before after t l p waits_for at s
  Advances-IsSound _ _ (requests io x index run_query elapsed req p) s =
      app-cases m io x index run_query elapsed (λ st. IsSound (with_state h m st p)) p.state s
        (λ body. LeavesAlone-IsSound _ p (set_blocklist-LeavesAlone m io body p.state) s)
        (λ body. LeavesAlone-IsSound _ p (set_config-LeavesAlone m io body p.state) s) req
  Advances-IsSound _ _ (persists item rest p at) s =
      with_state-IsSound _ p refl refl (omega (arith, s.keeps.persist, ap length at)) s.keeps.log s
  Advances-IsSound _ _ (logs r rest p at) s =
      let bound : LogBound (some (r ∷ rest)) = rw at at s.keeps.log in
      with_state-IsSound _ p refl refl s.keeps.persist (omega (arith, bound)) s
  Advances-IsSound _ _ (evicts c p) s =
      with_state-IsSound _ p refl refl s.keeps.persist s.keeps.log s

  -- In whatever order messages arrive on the listeners, queries begin and loads end (also in a panic),
  -- the web API answers requests, and the writers take what they are sent: the
  -- free permits and the running tasks add up to the capacity; the outcomes that are counted, the
  -- queries that wait and those that ended in a panic sum up to the counter of queries, modulo 2^64;
  -- and neither channel holds more than it may. All this, if it was so at first.
  pub Evolves-IsSound :
      (first p : Process m h.Name) → Evolves h m first p → IsSound first → IsSound p
  Evolves-IsSound first p no_step s = s
  Evolves-IsSound first p (one_more before step) s =
      Advances-IsSound _ p step (Evolves-IsSound first _ before s)
