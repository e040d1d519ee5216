-- ===== src/Boot/Life.antt =====
-- The process that src/main.rs starts, while it runs.
use rust_dns.Base.{
  max, ◌≡◌, ◌⊎◌, inl, inr, refl, ap, false, Option, List, [], length, arith, Bool-cases, is_empty,
}
use mathlib.Core.Path.{subst}
use rust_dns.Upstream.{new}
use rust_dns.Text.Unicode.{Unicode}
use rust_dns.Hickory.{Hickory}
use rust_dns.State.{Moka}
use rust_dns.Boot.{Start, initial_state}
use rust_dns.Text.{Text}
use rust_dns.Config.{Config}
use rust_dns.Blocklist.{Blocklist}
use rust_dns.Cache.Store.{Item}
use rust_dns.Dns.Server.Steps.{Process, Evolves, Advances}
use rust_dns.Dns.Server.Invariant.{IsSound, Evolves-IsSound}
use rust_dns.Dns.Server.Checked.{IsKept}
use rust_dns.Dns.Server.Kept.{Evolves-IsKept}
use rust_dns.Dns.Server.Authority.{SameRules, Authorized, Advances-SameRules}
use rust_dns.Dns.{Env}
use rust_dns.Dns.Server.Drains.{tasks-Reaches}

module _ ⦃u : Unicode⦄ (h : Hickory) (m : Moka) (s : Start) where
  -- No message has come yet.
  unfoldable pub started :
      Text → Config → Blocklist → m.Cache → Option (List Item) → Process m h.Name
  unfolding initial_state
  started path cfg blocklist build read = record {
    state = initial_state m s path cfg blocklist build read;
    tasks = [];
    received = [];
    sent = [];
    panics = 0;
  }

  started-IsSound :
      (path : Text) (cfg : Config) (blocklist : Blocklist) (build : m.Cache)
      (read : Option (List Item))
      → IsSound h m (max cfg.dns.max_inflight 1) (started path cfg blocklist build read)
  unfolding started
  started-IsSound path cfg blocklist build read = record {
    permits = omega arith;
    keeps = record {
      counted = refl;
      permits = refl;
      persist = omega arith;
      log = elim (Bool-cases cfg.qlog.enabled) [
        | inl on ↦ rw on (omega arith)
        | inr off ↦ rw off tt
      ];
    };
  }

  -- From a start on, whatever it read, and in whatever order messages arrive, queries begin, loads end
  -- or panic, the web API answers requests and the writers take what they are sent:
  -- free permits and running tasks add up to `max_inflight`, or one if that is 0; the outcomes that are
  -- counted, the queries that wait and those that ended in a panic sum up to the counter of queries,
  -- modulo 2^64; and neither channel holds more than its capacity.
  pub Evolves-started :
      (path : Text) (cfg : Config) (blocklist : Blocklist) (build : m.Cache)
      (read : Option (List Item)) (p : Process m h.Name)
      → Evolves h m (started path cfg blocklist build read) p
      → IsSound h m (max cfg.dns.max_inflight 1) p
  Evolves-started path cfg blocklist build read p runs =
      Evolves-IsSound h m (max cfg.dns.max_inflight 1) _ p runs
        (started-IsSound path cfg blocklist build read)

  -- From a start on, in whatever order the steps come: the web section of the configuration, with the
  -- admin token, is the one of the start; and every entry that is queued for the store is a valid
  -- response to a message that the process took, stands under the key of its question, and has a TTL
  -- between `min_ttl` and `max_ttl` of that configuration.
  pub Evolves-IsKept_started :
      (path : Text) (cfg : Config) (blocklist : Blocklist) (build : m.Cache)
      (read : Option (List Item)) (p : Process m h.Name)
      → Evolves h m (started path cfg blocklist build read) p
      → IsKept h m cfg.web cfg.cache.min_ttl cfg.cache.max_ttl p
  unfolding started
  Evolves-IsKept_started path cfg blocklist build read p runs =
      Evolves-IsKept h m cfg.web cfg.cache.min_ttl cfg.cache.max_ttl _ p runs
        (record { web = refl; bounds = unfold new in (refl, refl); queue = tt; tasks = tt })

  -- If the admin token of the start is not empty: at any time after it, a step of the process that does
  -- not leave both the configuration and the blocklist in use as they are is the answer to a `post` to
  -- the web API of one of them, and that very request has that token in one of its two headers.
  pub Evolves-SameRules :
      (path : Text) (cfg : Config) (blocklist : Blocklist) (build : m.Cache)
      (read : Option (List Item)) (p p' : Process m h.Name)
      → is_empty cfg.web.admin_token ≡ false
      → Evolves h m (started path cfg blocklist build read) p
      → (step : Advances h m p p')
      → SameRules h m p.state p'.state ⊎ Authorized h m cfg.web.admin_token p p' step
  Evolves-SameRules path cfg blocklist build read p p' secret runs step =
      let k = Evolves-IsKept_started path cfg blocklist build read p runs in
      subst (λ token. SameRules h m p.state p'.state ⊎ Authorized h m token p p' step)
        (ap (λ w. w.admin_token) k.web) (Advances-SameRules h m p p' (rw k.web secret) step)

  -- Whatever has come since a start, also panics, the process can go on to a state in which no task
  -- runs and all permits are free: `max_inflight`, or one if that is 0.
  pub Evolves-drains :
      (env : Env m) (path : Text) (cfg : Config) (blocklist : Blocklist) (build : m.Cache)
      (read : Option (List Item)) (p : Process m h.Name)
      → Evolves h m (started path cfg blocklist build read) p
      → (p' : Process m h.Name) × Evolves h m p p'
        × (p'.tasks ≡ [])
        × (p'.state.inflight ≡ max cfg.dns.max_inflight 1)
  Evolves-drains env path cfg blocklist build read p runs =
      let (p', rest, idle) = tasks-Reaches h m env p.tasks p refl in
      let sound = Evolves-started path cfg blocklist build read p runs in
      let still = Evolves-IsSound h m (max cfg.dns.max_inflight 1) p p' rest sound in
      (p', rest, idle, omega (arith, still.permits, ap length idle))
