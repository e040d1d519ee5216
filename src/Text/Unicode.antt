-- ===== src/Text/Unicode.antt =====
-- `to_lowercase` follows the tables of the Unicode standard. They are a parameter, with three facts
-- about them: what it returns holds only characters that it leaves alone, a text of such characters
-- is returned as it is, and of the ASCII characters it changes the capital letters only.
use rust_dns.Base.{
  false, ℕ, ◌+◌, ◌<◌, ◌≡◌, refl, Bool, true, [], ◌∷◌, map, ◌&&◌, not, leb, All, arith,
  if◌then◌else◌,
}
use rust_dns.Text.{Text}

abbrev pub is_upper_ascii : ℕ → Bool
is_upper_ascii c = leb b'A' c && leb c b'Z'

pub record Unicode : Type 0 where
  pub to_lowercase : Text → Text
  pub is_lower : ℕ → Bool
  pub lowers : (s : Text) → All (λ c. is_lower c ≡ true) (to_lowercase s)
  pub keeps : (s : Text) → All (λ c. is_lower c ≡ true) s → to_lowercase s ≡ s
  pub ascii_lower : (c : ℕ) → c < 128 → is_upper_ascii c ≡ false → is_lower c ≡ true

abbrev pub lower_ascii : ℕ → ℕ
lower_ascii c = if is_upper_ascii c then c + 32 else c

pub lower_ascii-is_lower : (s : Text) → All (λ c. not (is_upper_ascii c) ≡ true) (map lower_ascii s)
lower_ascii-is_lower [] = tt
lower_ascii-is_lower (c ∷ s) = (ground arith, lower_ascii-is_lower s)

pub lower_ascii-keeps :
    (s : Text) → All (λ c. not (is_upper_ascii c) ≡ true) s → map lower_ascii s ≡ s
lower_ascii-keeps [] h = refl
lower_ascii-keeps (c ∷ s) (h, hs) = ground (arith, lower_ascii-keeps s hs)

pub not_upper_ascii : (c : ℕ) → c < 128 → is_upper_ascii c ≡ false → not (is_upper_ascii c) ≡ true
not_upper_ascii c h e = rw e

-- The tables cut down to ASCII meet the facts.
instance abbrev pub ascii : Unicode
ascii = record {
  to_lowercase = map lower_ascii;
  is_lower = λ c. not (is_upper_ascii c);
  lowers = lower_ascii-is_lower;
  keeps = lower_ascii-keeps;
  ascii_lower = not_upper_ascii;
}
