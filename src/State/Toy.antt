-- ===== src/State/Toy.antt =====
-- A cache that meets what is asked of moka: the latest entry of each key, none evicted, each alive
-- until its life span is over.
use rust_dns.Blocklist.{empty}
use rust_dns.Base.{max, some-inj, Bool-cases, Bool, ◌≤◌, arith, inl, inr}
use rust_dns.Text.{equal_refl}
use rust_dns.Cache.{expire_after_create}
use rust_dns.Base.{
  ℕ, ◌+◌, ◌≡◌, refl, ◌∙◌, true, false, Option, none, some, List, [], ◌∷◌, length, if◌then◌else◌,
  ◌==◌, ltb, ◌&&◌,
}
use rust_dns.Result.{Result, ok, err, panic, Error}
use rust_dns.Cache.{CacheKey, CachedResponse}
use rust_dns.State.{Flight, Moka, Loaded, joined, alone, AppState}
use rust_dns.Text.{equal, text}
use rust_dns.Upstream.{Upstream, v4}
use rust_dns.Config.{default_config}
use rust_dns.Stats.{default_stats}

-- An entry and when it was inserted.
abbrev pub ToyCache : Type 0
ToyCache = List (CacheKey × CachedResponse × ℕ)

abbrev pub same_key : CacheKey → CacheKey → Bool
same_key key k = equal key.name k.name && key.rtype == k.rtype

unfoldable pub lookup : ℕ → CacheKey → ToyCache → Option CachedResponse
lookup now k [] = none
lookup now k ((key, v, since) ∷ c) =
    let rest = lookup now k c in
    if same_key key k && ltb now (since + max v.ttl_secs 1) then some v else rest

-- An older entry of the key is gone.
unfoldable pub forget : CacheKey → ToyCache → ToyCache
forget k [] = []
forget k ((key, v, since) ∷ c) =
    let rest = forget k c in if same_key key k then rest else (key, v, since) ∷ rest

abbrev pub insert_toy : ℕ → CacheKey → CachedResponse → ToyCache → ToyCache
insert_toy now k v c = (k, v, now) ∷ forget k c

forget-lookup : (now : ℕ) (k : CacheKey) (c : ToyCache) → lookup now k (forget k c) ≡ none
unfolding lookup forget
forget-lookup now k [] = refl
forget-lookup now k ((key, v, since) ∷ c) = elim (Bool-cases (same_key key k)) [
  | inl same ↦ rw (same, forget) (forget-lookup now k c)
  | inr differs ↦ rw (differs, forget) (rw (differs, lookup) (forget-lookup now k c))
]

same_key_refl : (k : CacheKey) → same_key k k ≡ true
same_key_refl k = rw (equal_refl k.name) (ground arith)

pub insert_toy-latest :
    (since now : ℕ) (k : CacheKey) (v w : CachedResponse) (c : ToyCache)
    → lookup now k (insert_toy since k v c) ≡ some w
    → w ≡ v
unfolding lookup
insert_toy-latest since now k v w c e = ground (arith, e, same_key_refl k, forget-lookup now k c)

pub insert_toy-expires :
    (since now life : ℕ) (k : CacheKey) (v : CachedResponse) (c : ToyCache)
    → expire_after_create v ≡ some life
    → since + life ≤ now
    → lookup now k (insert_toy since k v c) ≡ none
unfolding lookup expire_after_create
insert_toy-expires since now life k v c lives late =
    ground (arith, some-inj lives, late, same_key_refl k, forget-lookup now k c)

unfoldable pub load_missing : ℕ → CacheKey → Result CachedResponse → ToyCache → Loaded ToyCache
load_missing now k (ok v) c = record { cache = insert_toy now k v c; result = ok v; ran = true }
load_missing now k (err e) c = record { cache = c; result = err e; ran = true }
load_missing now k panic c = record { cache = c; result = panic; ran = true }

unfoldable pub load_toy : Flight → ℕ → CacheKey → Result CachedResponse → ToyCache → Loaded ToyCache
unfolding lookup load_missing
load_toy (joined r) now k init c = record { cache = c; result = r; ran = false }
load_toy alone now k init c = elim (lookup now k c) [
  | some v ↦ record { cache = c; result = ok v; ran = false }
  | none ↦ load_missing now k init c
]

pub load_toy-found :
    (now : ℕ) (k : CacheKey) (init : Result CachedResponse) (c : ToyCache) (v : CachedResponse)
    → lookup now k c ≡ some v
    → load_toy alone now k init c ≡ record { cache = c; result = ok v; ran = false }
unfolding load_toy
load_toy-found now k init c v e = rw (e, load_toy) refl

load_toy-missing :
    (now : ℕ) (k : CacheKey) (init : Result CachedResponse) (c : ToyCache)
    → lookup now k c ≡ none
    → load_toy alone now k init c ≡ load_missing now k init c
unfolding load_toy
load_toy-missing now k init c e = rw (e, load_toy) refl

pub load_toy-joined :
    (r : Result CachedResponse) (now : ℕ) (k : CacheKey) (init : Result CachedResponse)
    (c : ToyCache)
    → load_toy (joined r) now k init c ≡ record { cache = c; result = r; ran = false }
unfolding load_toy
load_toy-joined r now k init c = refl

pub load_toy-loads :
    (now : ℕ) (k : CacheKey) (init : Result CachedResponse) (c : ToyCache) (l : Loaded ToyCache)
    → lookup now k c ≡ none
    → load_missing now k init c ≡ l
    → load_toy alone now k init c ≡ l
load_toy-loads now k init c l missing e = load_toy-missing now k init c missing ∙ e

pub load_missing-ok :
    (now : ℕ) (k : CacheKey) (v : CachedResponse) (c : ToyCache)
    → load_missing now k (ok v) c
      ≡ record { cache = insert_toy now k v c; result = ok v; ran = true }
unfolding load_missing
load_missing-ok now k v c = refl

pub load_missing-err :
    (now : ℕ) (k : CacheKey) (x : Error) (c : ToyCache)
    → load_missing now k (err x) c ≡ record { cache = c; result = err x; ran = true }
unfolding load_missing
load_missing-err now k x c = refl

pub load_missing-panic :
    (now : ℕ) (k : CacheKey) (c : ToyCache)
    → load_missing now k panic c ≡ record { cache = c; result = panic; ran = true }
unfolding load_missing
load_missing-panic now k c = refl

abbrev pub toy_moka : Moka
toy_moka = record {
  Cache = ToyCache;
  get = lookup;
  insert = insert_toy;
  latest = insert_toy-latest;
  expires = insert_toy-expires;
  entry_count = λ c. length c;
  try_get_with = load_toy;
  joins = load_toy-joined;
  finds = load_toy-found;
  loads = λ now k c v e. load_toy-loads now k (ok v) c _ e (load_missing-ok now k v c);
  fails = λ now k c x e. load_toy-loads now k (err x) c _ e (load_missing-err now k x c);
  panics = λ now k c e. load_toy-loads now k panic c _ e (load_missing-panic now k c);
}

-- A state with an empty cache, for tests.
abbrev pub toy_upstream : Upstream
toy_upstream = record {
  servers = v4 0x01010101 53 ∷ [];
  timeout = 2000;
  qps = 2000;
  permits = 256;
  min_ttl = 30;
  max_ttl = 86_400;
  negative_ttl = 60;
}

abbrev pub idle : AppState toy_moka
idle = record {
  config = default_config;
  blocklist = empty;
  cache = [];
  inflight = 2;
  persist = [];
  qlog = some [];
  upstream = toy_upstream;
  stats = default_stats 0;
  config_path = text "config.json";
}
