-- ===== src/Boot.antt =====
-- src/main.rs: how a start makes the state from the configuration, the blocklist's file and the store.
-- Boot.Main puts the steps of `main` together.
pub mod Token
pub mod Life
pub mod Restart
pub mod Purge
pub mod Main
pub mod Ready
mod Tests
use rust_dns.Config.Atomic.{load_or_create, save, Write, Disk, Toml}
use rust_dns.Upstream.{new, unwrap_or, SocketAddr}
use rust_dns.Base.{
  max, ◌||◌, is_empty, ℕ, zero, suc, ◌+◌, ◌*◌, ◌/◌, ◌%◌, ◌^◌, ◌≡◌, ◌≤◌, ◌<◌, ◌⊎◌, inl, inr, refl,
  sym, ap, ◌∙◌, Bool, true, false, Option, none, some, List, [], ◌∷◌, ◌++◌, length, take, drop,
  first?, arith, Bool-cases, Option-cases, some-inj, if◌then◌else◌, ◌==◌, ltb, leb, In, here, there,
  All, ◌&&◌, map,
}
use rust_dns.Result.{Result, ok, err, panic}
use rust_dns.Bytes.{Bytes}
use rust_dns.Text.{Text, equal, text}
use rust_dns.Config.{Config, upstream_addrs}
use rust_dns.State.{Moka, AppState}
use rust_dns.Cache.Store.{Item}
use rust_dns.Blocklist.{Blocklist}
use rust_dns.Stats.{default_stats}

abbrev pub hex_digit : ℕ → ℕ
hex_digit n = if ltb n 10 then 48 + n else 87 + n

unfoldable pub hex : Bytes → Text
hex [] = []
hex (b ∷ bs) = hex_digit (b / 16) ∷ hex_digit (b % 16) ∷ hex bs

-- `{:032x}` of a number of 128 bits.
unfoldable pub hex_number : ℕ → ℕ → Text
hex_number zero n = []
hex_number (suc k) n = hex_number k (n / 16) ++ (hex_digit (n % 16) ∷ [])

-- `urandom` is the 32 bytes that could be read, `seed` the time and the process.
unfoldable pub random_token : Option Bytes → ℕ → Text
random_token (some buf) seed = hex buf
random_token none seed = hex_number 32 seed

unfoldable pub needs_token : Config → Bool
needs_token cfg = is_empty cfg.web.admin_token || equal cfg.web.admin_token (text "change-me")

abbrev pub with_token : Text → Config → Config
with_token token cfg = record cfg { web = record cfg.web { admin_token = token } }

-- What a start meets: the clock, the random bytes, the ends of its writes.
pub record Start : Type 0 where
  pub now : ℕ
  pub urandom : Option Bytes
  pub seed : ℕ
  pub write_end : Write
  pub renames : Bool
  -- the same for the second save, of a token of its own
  pub token_write_end : Write
  pub token_renames : Bool
  -- whether the first blocklist can be written, and whether its file can be read
  pub writes : Bool
  pub readable : Bool
  pub parse_socket : Text → Option SocketAddr

module _ (toml : Toml) (s : Start) where
  -- The configuration, with a token of its own.
  unfoldable pub load_config : Text → Disk → Disk × Option Config
  load_config path d =
      let (d1, loaded) = load_or_create toml s.write_end s.renames path d in
      elim loaded [
        | none ↦ (d1, none)
        | some cfg ↦
            let secured = with_token (random_token s.urandom s.seed) cfg in
            let (d2, good) = save toml s.token_write_end s.token_renames path secured d1 in
            if needs_token cfg then (d2, if good then some secured else none) else (d1, some cfg)
      ]

module _ (m : Moka) where
  -- The loop of `insert`.
  unfoldable pub insert_entries : ℕ → List Item → m.Cache → m.Cache
  insert_entries now [] c = c
  insert_entries now ((k, v) ∷ items) c = insert_entries now items (m.insert now k v c)

  -- Entries beyond the capacity are dropped, and a store that cannot be read gives none.
  unfoldable pub warm_load : ℕ → ℕ → Option (List Item) → m.Cache → m.Cache
  warm_load now max_entries none c = c
  warm_load now max_entries (some items) c = insert_entries now (take max_entries items) c

  -- `build` is the empty cache, `read` what `read_all_valid` gave.
  unfoldable pub initial_state :
      Start → Text → Config → Blocklist → m.Cache → Option (List Item) → AppState m
  initial_state s path cfg blocklist build read = record {
    config = cfg;
    blocklist = blocklist;
    cache = warm_load s.now cfg.cache.max_entries read build;
    inflight = max cfg.dns.max_inflight 1;
    persist = [];
    qlog = if cfg.qlog.enabled then some [] else none;
    upstream =
        new cfg.upstream (upstream_addrs s.parse_socket cfg) cfg.cache.min_ttl cfg.cache.max_ttl
          cfg.cache.negative_ttl;
    stats = default_stats s.now;
    config_path = path;
  }
