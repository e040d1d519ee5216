-- ===== src/Dns/Server/Drains.antt =====
-- No task is stuck: the process can always come to rest.
use rust_dns.Dns.Server.Steps.{
  spawned, waits, starts, loads, no_step, one_more, Process, Running, finish_wait, start, Phase,
  Evolves, begun, ip_of, completed,
}
use rust_dns.Dns.Server.{ignored, answered, loading, Load, Begun, begin, complete}
use rust_dns.Base.{◌≡◌, ◌⊎◌, inl, inr, refl, some, List, [], ◌∷◌}
use rust_dns.Result.{Result, ok, err, panic}
use rust_dns.Text.Unicode.{Unicode}
use rust_dns.Hickory.{Hickory}
use rust_dns.State.{Moka, AppState}
use rust_dns.Dns.{Env}
use rust_dns.Bytes.{Bytes}

module _ ⦃u : Unicode⦄ (h : Hickory) (m : Moka) where
  Evolves-trans : (p q r : Process m h.Name) → Evolves h m p q → Evolves h m q r → Evolves h m p r
  Evolves-trans p q r first no_step = first
  Evolves-trans p q r first (one_more rest step) = one_more (Evolves-trans p q _ first rest) step

  -- From `p` on, the process can come to a state in which only these tasks run.
  abbrev Reaches : List (Running h.Name) → Process m h.Name → Type 0
  Reaches tasks p = (p' : Process m h.Name) × Evolves h m p p' × (p'.tasks ≡ tasks)

  completed-tasks :
      (t : Running h.Name) (others : List (Running h.Name)) (p : Process m h.Name)
      (r : Result (AppState m × Bytes))
      → (completed h m t others p r).tasks ≡ others
  completed-tasks t others p (ok (st, out)) = refl
  completed-tasks t others p (err e) = refl
  completed-tasks t others p panic = refl

  -- A task that waits can end.
  waits-Reaches :
      (env : Env m) (t : Running h.Name) (l : Load h.Name) (others : List (Running h.Name))
      (p : Process m h.Name)
      → t.phase ≡ waits l
      → p.tasks ≡ t ∷ others
      → Reaches others p
  unfolding finish_wait
  waits-Reaches env t l others p waits_for at = (
    finish_wait h m env t l others p,
    one_more no_step (loads env [] others t l p waits_for at),
    completed-tasks t others p (complete h m env l p.state),
  )

  begun-Reaches :
      (env : Env m) (t : Running h.Name) (others : List (Running h.Name)) (p : Process m h.Name)
      (b : Begun (AppState m) h.Name)
      → Evolves h m p (begun h m t [] others p b)
      → Reaches others p
  begun-Reaches env t others p ignored runs = (_, runs, refl)
  begun-Reaches env t others p (answered st out) runs = (_, runs, refl)
  begun-Reaches env t others p (loading st l) runs =
      let (p', rest, at) =
        waits-Reaches env (record t { phase = waits l }) l others
          (begun h m t [] others p (loading st l)) refl refl in
      (p', Evolves-trans p _ p' runs rest, at)

  -- So can a task that has not begun.
  spawned-Reaches :
      (env : Env m) (t : Running h.Name) (others : List (Running h.Name)) (p : Process m h.Name)
      → t.phase ≡ spawned
      → p.tasks ≡ t ∷ others
      → Reaches others p
  unfolding start
  spawned-Reaches env t others p fresh at =
      begun-Reaches env t others p (begin h m env t.data_in (some (ip_of t.origin)) p.state)
        (one_more no_step (starts env [] others t p fresh at))

  Phase-cases : (f : Phase h.Name) → (f ≡ spawned) ⊎ ((l : Load h.Name) × (f ≡ waits l))
  Phase-cases spawned = inl refl
  Phase-cases (waits l) = inr (l, refl)

  task-Reaches :
      (env : Env m) (t : Running h.Name) (others : List (Running h.Name)) (p : Process m h.Name)
      → p.tasks ≡ t ∷ others
      → Reaches others p
  task-Reaches env t others p at = elim (Phase-cases t.phase) [
    | inl fresh ↦ spawned-Reaches env t others p fresh at
    | inr (l, waits_for) ↦ waits-Reaches env t l others p waits_for at
  ]

  pub tasks-Reaches :
      (env : Env m) (tasks : List (Running h.Name)) (p : Process m h.Name)
      → p.tasks ≡ tasks
      → (p' : Process m h.Name) × Evolves h m p p' × (p'.tasks ≡ [])
  tasks-Reaches env [] p at = (p, no_step, at)
  tasks-Reaches env (t ∷ others) p at =
      let (q, first, at_q) = task-Reaches env t others p at in
      let (r, rest, at_r) = tasks-Reaches env others q at_q in
      (r, Evolves-trans p q r first rest, at_r)
