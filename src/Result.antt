-- ===== src/Result.antt =====
-- Fallible code: `anyhow::Result`, and the panics that the sources can raise.
use mathlib.Core.Path.{subst}
use rust_dns.Base.{ℕ, ◌≡◌, ◌⊎◌, inl, inr, refl}

-- What the sources say in an error, as far as they build it themselves; `io n` is any error of a
-- library.
pub data Error : Type 0 where
  io : ℕ → Error
  no_servers unreachable mismatch : Error

pub data Result {ℓ} (A : Type ℓ) : Type ℓ where
  ok : A → Result A
  err : Error → Result A
  panic : Result A

infixl 5 ◌>>=◌
abbrev pub ◌>>=◌ {ℓ κ} : {A : Type ℓ} {B : Type κ} → Result A → (A → Result B) → Result B
ok a >>= f = f a
err e >>= f = err e
panic >>= f = panic

pub Result-cases {ℓ} :
    {A : Type ℓ} (r : Result A)
    → ((a : A) × (r ≡ ok a)) ⊎ (((e : Error) × (r ≡ err e)) ⊎ (r ≡ panic))
Result-cases (ok a) = inl (a, refl)
Result-cases (err e) = inr (inl (e, refl))
Result-cases panic = inr (inr refl)

-- What holds of a value, if there is one.
abbrev pub Ensures {ℓ κ} : {A : Type ℓ} → (A → Type κ) → Result A → Type κ
Ensures P (ok a) = P a
Ensures P (err e) = Unit
Ensures P panic = Unit

pub Ensures-ok {ℓ κ} :
    {A : Type ℓ} (P : A → Type κ) (r : Result A) (a : A) → Ensures P r → r ≡ ok a → P a
Ensures-ok P (ok b) a p e = let same : b ≡ a = cc in subst P same p
Ensures-ok P (err x) a p e = absurd (cc)
Ensures-ok P panic a p e = absurd (cc)

pub Ensures-map {ℓ κ} :
    {A : Type ℓ} (P Q : A → Type κ) (r : Result A)
    → ((a : A) → P a → Q a)
    → Ensures P r
    → Ensures Q r
Ensures-map P Q (ok a) f p = f a p
Ensures-map P Q (err e) f p = tt
Ensures-map P Q panic f p = tt

pub ok_not_err {ℓ} : {A : Type ℓ} {a : A} {e : Error} → ¬ (ok a ≡ err e)
ok_not_err h = cc

pub ok-inj {ℓ} : {A : Type ℓ} {a b : A} → ok a ≡ ok b → a ≡ b
ok-inj e = cc
