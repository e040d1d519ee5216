-- ===== src/Dns/Server/Askers.antt =====
-- Who gets a reply, in whatever order the steps of the process come.
use rust_dns.Dns.Server.Steps.{
  spawned, waits, arrives, starts, has_turn, loads, requests, persists, logs, evicts, no_step,
  one_more, Origin, Process, admit, Running, start, Phase, with_state, finish_wait, Evolves,
  buffered, ends, Advances, begun, completed, ip_of,
}
use rust_dns.Base.{
  suc, ◌+◌, ◌≡◌, ◌≤◌, inl, inr, refl, ap, Option, none, some, List, [], ◌∷◌, ◌++◌, length, arith,
  Option-cases, some-inj, In, here, there, All, All-map,
}
use rust_dns.Result.{Result, ok, err, panic}
use rust_dns.Dns.Server.{ignored, answered, loading, Load, Begun}
use rust_dns.Text.Unicode.{Unicode}
use rust_dns.Hickory.{Hickory}
use rust_dns.State.{Moka, AppState}
use rust_dns.Bytes.{Bytes}
use rust_dns.Dns.Server.Sent.{Answers, BeginsFor, RepliesTo, begin-BeginsFor, complete-RepliesTo}
use rust_dns.Dns.Listen.{try_acquire}
use rust_dns.Dns.Server.Tasks.{length_middle, others, instead}

module _ ⦃u : Unicode⦄ (h : Hickory) (m : Moka) where
  abbrev PhaseOf : Bytes → Phase h.Name → Type 0
  PhaseOf wire spawned = Unit
  PhaseOf wire (waits l) = h.from_vec wire ≡ some l.request

  abbrev TaskOf : List (Origin × Bytes) → Running h.Name → Type 0
  TaskOf received t = In (t.origin, t.data_in) received × PhaseOf t.data_in t.phase

  -- Each reply goes to where a message came from that it answers, and replies and tasks are together no
  -- more than the messages taken.
  pub record IsFair (p : Process m h.Name) : Type 0 where
    pub tasks : All (TaskOf p.received) p.tasks
    pub sent : All (λ s. Answers h m p.received s.0 s.1) p.sent
    pub once : length p.sent + length p.tasks ≤ length p.received

  TaskOf-more :
      (r : Origin × Bytes) (received : List (Origin × Bytes)) (t : Running h.Name)
      → TaskOf received t
      → TaskOf (r ∷ received) t
  TaskOf-more r received t (taken, k) = (there taken, k)

  Answers-more :
      (r : Origin × Bytes) (received : List (Origin × Bytes)) (s : Origin × Bytes)
      → Answers h m received s.0 s.1
      → Answers h m (r ∷ received) s.0 s.1
  Answers-more r received s a = record {
    wire = a.wire;
    taken = there a.taken;
    request = a.request;
    parsed = a.parsed;
    replies = a.replies;
  }

  admit-IsFair :
      (o : Origin) (wire : Bytes) (p : Process m h.Name) → IsFair p → IsFair (admit h m o wire p)
  unfolding admit
  admit-IsFair o wire p f = elim (Option-cases (try_acquire m p.state)) [
    | inl full ↦ rw (full, admit) (record { tasks = f.tasks; sent = f.sent; once = f.once })
    | inr (st, free) ↦
        let r : Origin × Bytes = (o, buffered o wire) in
        rw (free, admit)
          (record {
            tasks = ((here refl, tt), All-map (TaskOf-more r p.received) p.tasks f.tasks);
            sent = All-map (Answers-more r p.received) p.sent f.sent;
            once = omega (arith, f.once);
          })
  ]

  -- A task ends, with a reply that answers its message, or with none.
  ends-IsFair :
      (t : Running h.Name) (out : Option Bytes) (before after : List (Running h.Name))
      (st : AppState m) (p : Process m h.Name)
      → p.tasks ≡ before ++ (t ∷ after)
      → ((b : Bytes) → out ≡ some b → Answers h m p.received t.origin b)
      → IsFair p
      → IsFair (ends h m t out (before ++ after) st p)
  ends-IsFair t none before after st p at reply f =
      let all : All (TaskOf p.received) (before ++ (t ∷ after)) = rw at at f.tasks in
      record {
        tasks = (others (TaskOf p.received) before after t all).1;
        sent = f.sent;
        once = omega (arith, f.once, ap length at, length_middle before t after);
      }
  ends-IsFair t (some out) before after st p at reply f =
      let all : All (TaskOf p.received) (before ++ (t ∷ after)) = rw at at f.tasks in
      record {
        tasks = (others (TaskOf p.received) before after t all).1;
        sent = (reply out refl, f.sent);
        once = omega (arith, f.once, ap length at, length_middle before t after);
      }

  task_of :
      (before after : List (Running h.Name)) (t : Running h.Name) (p : Process m h.Name)
      → p.tasks ≡ before ++ (t ∷ after)
      → IsFair p
      → TaskOf p.received t
  task_of before after t p at f =
      let all : All (TaskOf p.received) (before ++ (t ∷ after)) = rw at at f.tasks in
      (others (TaskOf p.received) before after t all).0

  -- A task goes on to wait.
  waits-IsFair :
      (before after : List (Running h.Name)) (t : Running h.Name) (l : Load h.Name)
      (st : AppState m) (p : Process m h.Name)
      → p.tasks ≡ before ++ (t ∷ after)
      → h.from_vec t.data_in ≡ some l.request
      → IsFair p
      → IsFair (record p { state = st; tasks = before ++ ((record t { phase = waits l }) ∷ after) })
  waits-IsFair before after t l st p at parsed f =
      let t' : Running h.Name = record t { phase = waits l } in
      let all : All (TaskOf p.received) (before ++ (t ∷ after)) = rw at at f.tasks in
      let (taken, _) = task_of before after t p at f in
      record {
        tasks = instead (TaskOf p.received) before after t t' (taken, parsed) all;
        sent = f.sent;
        once = omega (
          arith,
          f.once,
          ap length at,
          length_middle before t after,
          length_middle before t' after,
        );
      }

  begun-IsFair :
      (before after : List (Running h.Name)) (t : Running h.Name) (p : Process m h.Name)
      (b : Begun (AppState m) h.Name)
      → p.tasks ≡ before ++ (t ∷ after)
      → BeginsFor h m t.data_in b
      → IsFair p
      → IsFair (begun h m t before after p b)
  begun-IsFair before after t p ignored at k f =
      ends-IsFair t none before after p.state p at (λ b e. cc) f
  begun-IsFair before after t p (answered st out) at (request, parsed, replies) f =
      let (taken, _) = task_of before after t p at f in
      ends-IsFair t (some out) before after st p at
        (λ b e. record {
          wire = t.data_in;
          taken = taken;
          request = request;
          parsed = parsed;
          replies = rw (← some-inj e) replies;
        })
        f
  begun-IsFair before after t p (loading st l) at parsed f =
      waits-IsFair before after t l st p at parsed f

  completed-IsFair :
      (before after : List (Running h.Name)) (t : Running h.Name) (l : Load h.Name)
      (p : Process m h.Name) (r : Result (AppState m × Bytes))
      → p.tasks ≡ before ++ (t ∷ after)
      → h.from_vec t.data_in ≡ some l.request
      → RepliesTo h m l.request r
      → IsFair p
      → IsFair (completed h m t (before ++ after) p r)
  completed-IsFair before after t l p (ok (st, out)) at parsed replies f =
      let (taken, _) = task_of before after t p at f in
      ends-IsFair t (some out) before after st p at
        (λ b e. record {
          wire = t.data_in;
          taken = taken;
          request = l.request;
          parsed = parsed;
          replies = rw (← some-inj e) replies;
        })
        f
  completed-IsFair before after t l p (err e) at parsed replies f =
      ends-IsFair t none before after p.state p at (λ b e. cc) f
  completed-IsFair before after t l p panic at parsed replies f =
      ends-IsFair t none before after p.state (record p { panics = suc p.panics }) at (λ b e. cc)
        (record { tasks = f.tasks; sent = f.sent; once = f.once })

  waits_for_request :
      (before after : List (Running h.Name)) (t : Running h.Name) (l : Load h.Name)
      (p : Process m h.Name)
      → t.phase ≡ waits l
      → p.tasks ≡ before ++ (t ∷ after)
      → IsFair p
      → h.from_vec t.data_in ≡ some l.request
  waits_for_request before after t l p waits_for at f =
      let (_, k) = task_of before after t p at f in rw waits_for at k

  with_state-IsFair :
      (st : AppState m) (p : Process m h.Name) → IsFair p → IsFair (with_state h m st p)
  with_state-IsFair st p f = record { tasks = f.tasks; sent = f.sent; once = f.once }

  Advances-IsFair : (p p' : Process m h.Name) → Advances h m p p' → IsFair p → IsFair p'
  unfolding start finish_wait
  Advances-IsFair _ _ (arrives o wire p) f = admit-IsFair o wire p f
  Advances-IsFair _ _ (starts env before after t p fresh at) f =
      begun-IsFair before after t p _ at
        (begin-BeginsFor h m env t.data_in (some (ip_of t.origin)) p.state) f
  Advances-IsFair _ _ (has_turn before after t l p waits_for at) f =
      let parsed = waits_for_request before after t l p waits_for at f in
      waits-IsFair before after t (record l { upstream = p.state.upstream }) p.state p at parsed f
  Advances-IsFair _ _ (loads env before after t l p waits_for at) f =
      let parsed = waits_for_request before after t l p waits_for at f in
      completed-IsFair before after t l p _ at parsed (complete-RepliesTo h m env l p.state) f
  Advances-IsFair _ _ (requests io x index run_query elapsed req p) f = with_state-IsFair _ p f
  Advances-IsFair _ _ (persists item rest p at) f = with_state-IsFair _ p f
  Advances-IsFair _ _ (logs r rest p at) f = with_state-IsFair _ p f
  Advances-IsFair _ _ (evicts c p) f = with_state-IsFair _ p f

  -- In whatever order the steps come, if the process has sent nothing and runs no task at first: each
  -- reply goes to where a message came from that was taken and parses, and it is shorter than two bytes
  -- or has the id of that message, as 16 bits; and there are no more replies and running tasks than
  -- messages taken.
  pub Evolves-IsFair :
      (first p : Process m h.Name)
      → Evolves h m first p
      → first.tasks ≡ []
      → first.sent ≡ []
      → IsFair p
  Evolves-IsFair first p no_step idle silent = record {
    tasks = rw idle tt;
    sent = rw silent tt;
    once = omega (arith, ap length idle, ap length silent);
  }
  Evolves-IsFair first p (one_more before step) idle silent =
      Advances-IsFair _ p step (Evolves-IsFair first _ before idle silent)
