-- ===== src/Bytes.antt =====
-- Byte slices, and `to_be_bytes` and `from_be_bytes` of the unsigned integers.
use native.Mathlib.Nat.{pow-suc, add-zero, zero-add}
use rust_dns.Base.{
  ℕ, zero, suc, ◌+◌, ◌*◌, ◌/◌, ◌%◌, ◌^◌, ◌<◌, ◌≡◌, refl, List, [], ◌∷◌, ◌++◌, length, length-append,
  All, All-append, arith, ap, append-nil, ◌∙◌, append_assoc,
}

abbrev pub Bytes : Type 0
Bytes = List ℕ

abbrev pub IsByte : ℕ → Type 0
IsByte b = b < 256

-- The `k` low bytes of a number, the highest first.
unfoldable pub to_be_bytes : ℕ → ℕ → Bytes
to_be_bytes zero n = []
to_be_bytes (suc k) n = to_be_bytes k (n / 256) ++ (n % 256 ∷ [])

unfoldable pub from_be_bytes_onto : ℕ → Bytes → ℕ
from_be_bytes_onto acc [] = acc
from_be_bytes_onto acc (b ∷ bs) = from_be_bytes_onto (acc * 256 + b) bs

unfoldable pub from_be_bytes : Bytes → ℕ
unfolding from_be_bytes_onto
from_be_bytes bs = from_be_bytes_onto 0 bs

from_be_bytes_onto-append :
    (bs : Bytes) (acc b : ℕ)
    → from_be_bytes_onto acc (bs ++ (b ∷ [])) ≡ from_be_bytes_onto acc bs * 256 + b
unfolding from_be_bytes_onto
from_be_bytes_onto-append [] acc b = refl
from_be_bytes_onto-append (x ∷ bs) acc b = from_be_bytes_onto-append bs (acc * 256 + x) b

pub length-to_be_bytes : (k n : ℕ) → length (to_be_bytes k n) ≡ k
unfolding to_be_bytes
length-to_be_bytes zero n = refl
length-to_be_bytes (suc k) n =
    omega (
      arith,
      length-to_be_bytes k (n / 256),
      length-append (to_be_bytes k (n / 256)) (n % 256 ∷ []),
    )

pub to_be_bytes-IsByte : (k n : ℕ) → All IsByte (to_be_bytes k n)
unfolding to_be_bytes
to_be_bytes-IsByte zero n = tt
to_be_bytes-IsByte (suc k) n =
    All-append IsByte (to_be_bytes k (n / 256)) (n % 256 ∷ []) (to_be_bytes-IsByte k (n / 256))
      (omega arith)

-- A number that fits `k` bytes is read back from them.
pub from_be_bytes-to_be_bytes : (k n : ℕ) → n < 256 ^ k → from_be_bytes (to_be_bytes k n) ≡ n
unfolding from_be_bytes to_be_bytes
from_be_bytes-to_be_bytes zero n h = omega arith
from_be_bytes-to_be_bytes (suc k) n h = omega (
  arith,
  from_be_bytes_onto-append (to_be_bytes k (n / 256)) 0 (n % 256),
  from_be_bytes-to_be_bytes k (n / 256) (omega (arith, pow-suc 256 k)),
)

from_be_bytes_onto-lt :
    (bs : Bytes) (acc m : ℕ)
    → acc < m
    → All IsByte bs
    → from_be_bytes_onto acc bs < m * 256 ^ length bs
unfolding from_be_bytes_onto
from_be_bytes_onto-lt [] acc m h a = omega arith
from_be_bytes_onto-lt (b ∷ bs) acc m h (hb, a) = omega (
  arith,
  from_be_bytes_onto-lt bs (acc * 256 + b) (m * 256) (omega arith) a,
  ap (λ (t : ℕ). m * t) (pow-suc 256 (length bs)),
)

pub from_be_bytes-lt : (bs : Bytes) → All IsByte bs → from_be_bytes bs < 256 ^ length bs
unfolding from_be_bytes
from_be_bytes-lt bs a = omega (arith, from_be_bytes_onto-lt bs 0 1 (omega arith) a)

to_be_bytes-from_be_bytes_onto :
    (bs : Bytes) (k acc : ℕ)
    → All IsByte bs
    → to_be_bytes (k + length bs) (from_be_bytes_onto acc bs) ≡ to_be_bytes k acc ++ bs
unfolding from_be_bytes_onto
to_be_bytes-from_be_bytes_onto [] k acc a = rw (append-nil, add-zero)
to_be_bytes-from_be_bytes_onto (b ∷ bs) k acc (hb, a) =
    let step : k + suc (length bs) ≡ suc k + length bs = omega arith in
    let high : (acc * 256 + b) / 256 ≡ acc = omega arith in
    let low : (acc * 256 + b) % 256 ≡ b = omega arith in
    rw step (
      to_be_bytes-from_be_bytes_onto bs (suc k) (acc * 256 + b) a
      ∙ (unfold to_be_bytes in rw (high, low, append_assoc) refl))

-- Bytes are what their number is written as.
pub to_be_bytes-from_be_bytes :
    (bs : Bytes) → All IsByte bs → to_be_bytes (length bs) (from_be_bytes bs) ≡ bs
unfolding from_be_bytes
to_be_bytes-from_be_bytes bs a =
    rw (← zero-add (length bs))
      (to_be_bytes-from_be_bytes_onto bs 0 0 a ∙ (unfold to_be_bytes in refl))
