-- ===== src/State/Loads.antt =====
-- What `try_get_with` of moka returns, from the documented cases of it.
use rust_dns.Base.{ℕ, ◌≡◌, ◌⊎◌, inl, inr, sym, ap, none, some, Option-cases}
use rust_dns.Result.{Result, ok, err, panic}
use rust_dns.Cache.{CacheKey, CachedResponse}
use rust_dns.State.{Moka, Flight, alone, joined}

module _ (m : Moka) where
  -- A load of a missing key gives what its own future gives.
  pub by_init :
      (now : ℕ) (key : CacheKey) (init : Result CachedResponse) (c : m.Cache)
      → m.get now key c ≡ none
      → (m.try_get_with alone now key init c).result ≡ init
  by_init now key (ok v) c missing = ap (λ l. l.result) (m.loads now key c v missing)
  by_init now key (err e) c missing = ap (λ l. l.result) (m.fails now key c e missing)
  by_init now key panic c missing = ap (λ l. l.result) (m.panics now key c missing)

  -- The result is that of the load under way, or an entry that is there, or that of its own future.
  pub outcome :
      (f : Flight) (now : ℕ) (key : CacheKey) (init : Result CachedResponse) (c : m.Cache)
      → (f ≡ joined (m.try_get_with f now key init c).result)
        ⊎ (((v : CachedResponse) × (m.get now key c ≡ some v)
              × ((m.try_get_with f now key init c).result ≡ ok v))
            ⊎ ((m.try_get_with f now key init c).result ≡ init))
  outcome (joined r) now key init c =
      inl (ap (λ l. joined l.result) (sym (m.joins r now key init c)))
  outcome alone now key init c = elim (Option-cases (m.get now key c)) [
    | inl missing ↦ inr (inr (by_init now key init c missing))
    | inr (v, found) ↦ inr (inl (v, found, ap (λ l. l.result) (m.finds now key init c v found)))
  ]
