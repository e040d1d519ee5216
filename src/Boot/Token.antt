-- ===== src/Boot/Token.antt =====
-- The server never runs without a token of its own.
use rust_dns.Text.{equal_iff, Text, text}
use rust_dns.Base.{
  ◌≢◌, is_empty, length-append, ℕ, zero, suc, ◌*◌, ◌/◌, ◌%◌, ◌≡◌, ◌≤◌, inl, inr, refl, sym, ap, ◌∙◌,
  false, Option, none, some, [], ◌∷◌, length, arith, Bool-cases, Option-cases, some-inj,
}
use rust_dns.Config.Atomic.{load_or_create, save, Disk, Toml}
use rust_dns.Boot.{
  hex, hex_number, random_token, needs_token, Start, hex_digit, load_config, with_token,
}
use rust_dns.Bytes.{Bytes}
use rust_dns.Config.{Config}

-- A token that is neither empty nor the legacy one.
abbrev pub Secret : Text → Type 0
Secret token = (token ≢ []) × (token ≢ text "change-me")

length-hex : (bs : Bytes) → length (hex bs) ≡ 2 * length bs
unfolding hex
length-hex [] = refl
length-hex (b ∷ bs) = omega (arith, length-hex bs)

length-hex_number : (k n : ℕ) → length (hex_number k n) ≡ k
unfolding hex_number
length-hex_number zero n = refl
length-hex_number (suc k) n = omega (
  arith,
  length-append (hex_number k (n / 16)) (hex_digit (n % 16) ∷ []),
  length-hex_number k (n / 16),
)

Secret-long : (token : Text) → 32 ≤ length token → Secret token
Secret-long token long =
    ((λ e. omega (arith, long, ap length e)), (λ e. omega (arith, long, ap length e)))

random_token-Secret :
    (urandom : Option Bytes) (seed : ℕ)
    → ((buf : Bytes) → urandom ≡ some buf → length buf ≡ 32)
    → Secret (random_token urandom seed)
unfolding random_token
random_token-Secret none seed full = Secret-long _ (omega (arith, length-hex_number 32 seed))
random_token-Secret (some buf) seed full =
    Secret-long _ (omega (arith, length-hex buf, full buf refl))

needs_token-Secret : (cfg : Config) → needs_token cfg ≡ false → Secret cfg.web.admin_token
unfolding needs_token
needs_token-Secret cfg e = (
  (λ t. absurd (ground (arith, e, ap is_empty t))),
  (λ t. absurd (ground (arith, e, (equal_iff cfg.web.admin_token (text "change-me")).1 t))),
)

module _ (toml : Toml) (s : Start) where
  -- If the read of random bytes gives 32 of them or none, then every configuration with which a start
  -- goes on has a token that is neither empty nor the legacy one.
  pub load_config-Secret :
      (path : Text) (d d' : Disk) (cfg : Config)
      → ((buf : Bytes) → s.urandom ≡ some buf → length buf ≡ 32)
      → load_config toml s path d ≡ (d', some cfg)
      → Secret cfg.web.admin_token
  unfolding load_config
  load_config-Secret path d d' cfg full e =
      let p = load_or_create toml s.write_end s.renames path d in
      elim (Option-cases p.1) [
        | inl unloaded ↦ absurd (ground (arith, e, unloaded))
        | inr (first, loaded) ↦
            let secured = with_token (random_token s.urandom s.seed) first in
            let q = save toml s.token_write_end s.token_renames path secured p.0 in
            elim (Bool-cases (needs_token first)) [
              | inr has_one ↦
                  let goes : load_config toml s path d ≡ (p.0, some first) =
                    rw (loaded, load_config) (rw has_one refl) in
                  let same : first ≡ cfg = some-inj (ap (λ r. r.1) (sym goes ∙ e)) in
                  rw (← same) (needs_token-Secret first has_one)
              | inl missing ↦ elim (Bool-cases q.1) [
                | inr unsaved ↦ absurd (ground (arith, e, loaded, missing, unsaved))
                | inl kept ↦
                    let goes : load_config toml s path d ≡ (q.0, some secured) =
                      rw (loaded, load_config) (rw missing (rw kept refl)) in
                    let same : secured ≡ cfg = some-inj (ap (λ r. r.1) (sym goes ∙ e)) in
                    rw (← same) (random_token-Secret s.urandom s.seed full)
              ]
            ]
      ]
