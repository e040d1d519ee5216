-- ===== src/State.antt =====
-- src/state.rs: the state that the DNS path and the web API share. The RAM cache moka is a parameter.
pub mod Toy
pub mod Loads
use rust_dns.Base.{
  ℕ, ◌≡◌, Bool, true, false, Option, none, some, List, [], ◌∷◌, ◌++◌, length, ltb, if◌then◌else◌,
  ◌+◌, ◌≤◌,
}
use rust_dns.Blocklist.{Blocklist}
use rust_dns.Cache.{CacheKey, CachedResponse, expire_after_create}
use rust_dns.Cache.Store.{Item}
use rust_dns.Config.{Config}
use rust_dns.Result.{Result, Error, ok, err, panic}
use rust_dns.Stats.{Stats}
use rust_dns.Text.{Text}
use rust_dns.Upstream.{Upstream}

-- What `try_get_with` meets: no other load of the key is under way, or one is, whose outcome it shares.
pub data Flight : Type 0 where
  alone : Flight
  joined : Result CachedResponse → Flight

-- The outcome of `try_get_with`: the cache, the result, and whether the given future was run.
pub record Loaded (Cache : Type 0) : Type 0 where
  pub cache : Cache
  pub result : Result CachedResponse
  pub ran : Bool

-- moka's `Cache` with the expiry policy of `TtlExpiry`; the number is the time. `try_get_with` is
-- given what its future would resolve to. The equations are its documentation: a key has the value that
-- was inserted last, if any, and none once the time of that is over; a value that is there is
-- returned, one load at a time is run for a key, and only its success is inserted.
pub record Moka : Type 1 where
  pub Cache : Type 0
  pub get : ℕ → CacheKey → Cache → Option CachedResponse
  pub insert : ℕ → CacheKey → CachedResponse → Cache → Cache
  pub entry_count : Cache → ℕ
  pub try_get_with : Flight → ℕ → CacheKey → Result CachedResponse → Cache → Loaded Cache
  pub latest :
      (since now : ℕ) (k : CacheKey) (v w : CachedResponse) (c : Cache)
      → get now k (insert since k v c) ≡ some w
      → w ≡ v
  pub expires :
      (since now life : ℕ) (k : CacheKey) (v : CachedResponse) (c : Cache)
      → expire_after_create v ≡ some life
      → since + life ≤ now
      → get now k (insert since k v c) ≡ none
  pub joins :
      (r : Result CachedResponse) (now : ℕ) (k : CacheKey) (init : Result CachedResponse)
      (c : Cache)
      → try_get_with (joined r) now k init c ≡ record { cache = c; result = r; ran = false }
  pub finds :
      (now : ℕ) (k : CacheKey) (init : Result CachedResponse) (c : Cache) (v : CachedResponse)
      → get now k c ≡ some v
      → try_get_with alone now k init c ≡ record { cache = c; result = ok v; ran = false }
  pub loads :
      (now : ℕ) (k : CacheKey) (c : Cache) (v : CachedResponse)
      → get now k c ≡ none
      → try_get_with alone now k (ok v) c
        ≡ record { cache = insert now k v c; result = ok v; ran = true }
  pub fails :
      (now : ℕ) (k : CacheKey) (c : Cache) (e : Error)
      → get now k c ≡ none
      → try_get_with alone now k (err e) c ≡ record { cache = c; result = err e; ran = true }
  pub panics :
      (now : ℕ) (k : CacheKey) (c : Cache)
      → get now k c ≡ none
      → try_get_with alone now k panic c ≡ record { cache = c; result = panic; ran = true }

pub data Action : Type 0 where
  blocked cached forwarded error : Action

pub record LogRecord : Type 0 where
  pub ts_ms : ℕ
  pub client : Text
  pub domain : Text
  pub qtype : Text
  pub action : Action
  pub latency_ms : ℕ

-- What a bounded channel holds; `try_send` drops the value if it is full.
unfoldable pub try_send {ℓ} : {A : Type ℓ} → ℕ → A → List A → List A
try_send cap a held = if ltb (length held) cap then held ++ (a ∷ []) else held

abbrev pub persist_channel_cap : ℕ
persist_channel_cap = 100_000

abbrev pub log_channel_cap : ℕ
log_channel_cap = 100_000

module _ (m : Moka) where
  pub record AppState : Type 0 where
    pub config : Config
    pub blocklist : Blocklist
    pub cache : m.Cache
    -- permits that are free
    pub inflight : ℕ
    pub persist : List Item
    pub qlog : Option (List LogRecord)
    pub upstream : Upstream
    pub stats : Stats
    pub config_path : Text
