-- ===== src/Text/Trim.antt =====
-- What trimming leaves, and what it leaves alone.
use rust_dns.Base.{ℕ, ◌≡◌, refl, Bool, true, false, [], ◌∷◌, arith, ◌==◌, All, Bool-cases, inl, inr}
use rust_dns.Text.{
  Text, trim_start_by, trim_end_by, trim, trim_end_matches, is_whitespace, keep_before,
}

module _ (p : ℕ → Bool) where
  -- No character at the front passes the test.
  abbrev pub StartsClean : Text → Type 0
  StartsClean [] = Unit
  StartsClean (x ∷ xs) = p x ≡ false

  abbrev pub EndsClean : Text → Type 0
  EndsClean [] = Unit
  EndsClean (x ∷ []) = p x ≡ false
  EndsClean (x ∷ y ∷ ys) = EndsClean (y ∷ ys)

  pub trim_start_by-StartsClean : (s : Text) → StartsClean (trim_start_by p s)
  unfolding trim_start_by
  trim_start_by-StartsClean [] = tt
  trim_start_by-StartsClean (x ∷ xs) = ground (arith, trim_start_by-StartsClean xs)

  keep_before-EndsClean :
      (b : Bool) (x : ℕ) (s : Text) → p x ≡ b → EndsClean s → EndsClean (keep_before b x s)
  keep_before-EndsClean true x [] e h = tt
  keep_before-EndsClean false x [] e h = e
  keep_before-EndsClean b x (y ∷ ys) e h = h

  pub trim_end_by-EndsClean : (s : Text) → EndsClean (trim_end_by p s)
  unfolding trim_end_by
  trim_end_by-EndsClean [] = tt
  trim_end_by-EndsClean (x ∷ xs) =
      keep_before-EndsClean (p x) x (trim_end_by p xs) refl (trim_end_by-EndsClean xs)

  pub trim_start_by-clean : (s : Text) → StartsClean s → trim_start_by p s ≡ s
  unfolding trim_start_by
  trim_start_by-clean [] h = refl
  trim_start_by-clean (x ∷ xs) h = rw h

  pub trim_end_by-clean : (s : Text) → EndsClean s → trim_end_by p s ≡ s
  unfolding trim_end_by
  trim_end_by-clean [] h = refl
  trim_end_by-clean (x ∷ []) h = rw h
  trim_end_by-clean (x ∷ y ∷ ys) h = rw (trim_end_by-clean (y ∷ ys) h)

  keep_before-StartsClean :
      (b : Bool) (x : ℕ) (s : Text) → p x ≡ false → StartsClean (keep_before b x s)
  keep_before-StartsClean true x [] e = tt
  keep_before-StartsClean false x [] e = e
  keep_before-StartsClean b x (y ∷ ys) e = e

  pub trim_end_by-StartsClean : (s : Text) → StartsClean s → StartsClean (trim_end_by p s)
  unfolding trim_end_by
  trim_end_by-StartsClean [] h = tt
  trim_end_by-StartsClean (x ∷ xs) h = keep_before-StartsClean (p x) x (trim_end_by p xs) h

-- What is left is a part of the text.
module _ {κ} (p : ℕ → Bool) (P : ℕ → Type κ) where
  All-trim_start_by : (s : Text) → All P s → All P (trim_start_by p s)
  unfolding trim_start_by
  All-trim_start_by [] h = tt
  All-trim_start_by (x ∷ xs) (h, hs) = elim (Bool-cases (p x)) [
    | inl e ↦ rw e (All-trim_start_by xs hs)
    | inr e ↦ rw e (h, hs)
  ]

  All-keep_before : (b : Bool) (x : ℕ) (s : Text) → P x → All P s → All P (keep_before b x s)
  All-keep_before true x [] h hs = tt
  All-keep_before false x [] h hs = (h, tt)
  All-keep_before b x (y ∷ ys) h hs = (h, hs)

  All-trim_end_by : (s : Text) → All P s → All P (trim_end_by p s)
  unfolding trim_end_by
  All-trim_end_by [] h = tt
  All-trim_end_by (x ∷ xs) (h, hs) =
      All-keep_before (p x) x (trim_end_by p xs) h (All-trim_end_by xs hs)

pub All-trim {κ} : (P : ℕ → Type κ) (s : Text) → All P s → All P (trim s)
unfolding trim
All-trim P s h = All-trim_end_by is_whitespace P _ (All-trim_start_by is_whitespace P s h)

pub All-trim_end_matches {κ} :
    (P : ℕ → Type κ) (c : ℕ) (s : Text) → All P s → All P (trim_end_matches c s)
unfolding trim_end_matches
All-trim_end_matches P c s h = All-trim_end_by _ P s h

-- No white space at either end.
abbrev pub IsTrimmed : Text → Type 0
IsTrimmed s = StartsClean is_whitespace s × EndsClean is_whitespace s

pub trim-IsTrimmed : (s : Text) → IsTrimmed (trim s)
unfolding trim
trim-IsTrimmed s = (
  trim_end_by-StartsClean is_whitespace _ (trim_start_by-StartsClean is_whitespace s),
  trim_end_by-EndsClean is_whitespace (trim_start_by is_whitespace s),
)

pub trim-clean : (s : Text) → IsTrimmed s → trim s ≡ s
unfolding trim
trim-clean s (h, k) =
    rw (trim_start_by-clean is_whitespace s h) (trim_end_by-clean is_whitespace s k)

pub trim_end_matches-clean :
    (c : ℕ) (s : Text) → EndsClean (λ x. x == c) s → trim_end_matches c s ≡ s
unfolding trim_end_matches
trim_end_matches-clean c s h = trim_end_by-clean (λ x. x == c) s h
