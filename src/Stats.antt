-- ===== src/Stats.antt =====
-- src/stats.rs: the counters, and what the web UI reads of them.
use rust_dns.Base.{ℕ, ◌+◌, ◌%◌, ◌^◌, ltb, if◌then◌else◌}

pub record Stats : Type 0 where
  pub queries : ℕ
  pub blocked : ℕ
  pub cache_hits : ℕ
  pub forwarded : ℕ
  pub upstream_errors : ℕ
  pub dropped : ℕ
  pub started : ℕ

abbrev pub default_stats : ℕ → Stats
default_stats now = record {
  queries = 0;
  blocked = 0;
  cache_hits = 0;
  forwarded = 0;
  upstream_errors = 0;
  dropped = 0;
  started = now;
}

-- `fetch_add(1)` on an `AtomicU64`.
unfoldable pub incr : ℕ → ℕ
incr n = (n + 1) % 2 ^ 64

-- A rate is the quotient of its two numbers.
pub record Rate : Type 0 where
  pub hits : ℕ
  pub lookups : ℕ

pub record StatsSnapshot : Type 0 where
  pub queries : ℕ
  pub blocked : ℕ
  pub cache_hits : ℕ
  pub forwarded : ℕ
  pub upstream_errors : ℕ
  pub dropped : ℕ
  pub cache_hit_rate : Rate
  pub uptime_secs : ℕ
  pub cache_entries : ℕ

-- `elapsed` is the time since `started`; 0 is written as 0 / 1.
unfoldable pub snapshot : ℕ → Stats → ℕ → StatsSnapshot
snapshot elapsed s cache_entries =
    let lookups = (s.cache_hits + s.forwarded) % 2 ^ 64 in
    record {
      queries = s.queries;
      blocked = s.blocked;
      cache_hits = s.cache_hits;
      forwarded = s.forwarded;
      upstream_errors = s.upstream_errors;
      dropped = s.dropped;
      cache_hit_rate =
          if ltb 0 lookups
          then record { hits = s.cache_hits; lookups = lookups }
          else record { hits = 0; lookups = 1 };
      uptime_secs = elapsed;
      cache_entries = cache_entries;
    }
