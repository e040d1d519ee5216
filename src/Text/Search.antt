-- ===== src/Text/Search.antt =====
-- What `find`, `find_str`, `starts_with` and `strip_prefix` find.
use rust_dns.Base.{
  ℕ, zero, suc, ◌≡◌, refl, sym, ◌≢◌, ◌⊎◌, append_assoc, true, none, some, [], ◌∷◌, ◌++◌, take, drop,
  arith, ◌==◌, All, Bool-cases, inl, inr, ==_iff, Option-cases,
}
use rust_dns.Text.{Text, find, starts_with, strip_prefix, find_str}

abbrev pub Free : ℕ → Text → Type 0
Free c s = All (λ x. x ≢ c) s

-- Where `find` answers, the text is cut at the first place where the character stands.
pub find-some :
    (c : ℕ) (s : Text) (i : ℕ)
    → find c s ≡ some i
    → (s ≡ take i s ++ (c ∷ drop (suc i) s)) × Free c (take i s)
unfolding find
find-some c [] i h = cc
find-some c (x ∷ xs) zero h = ground (arith, ==_iff x c, Option-cases (find c xs))
find-some c (x ∷ xs) (suc i) h = ground (arith, find-some c xs i)

pub find-none : (c : ℕ) (s : Text) → find c s ≡ none → Free c s
unfolding find
find-none c [] h = tt
find-none c (x ∷ xs) h = ground (arith, find-none c xs)

-- `d` is the text, or what follows some `c` in it.
abbrev pub Behind : ℕ → Text → Text → Type 0
Behind c d s = (d ≡ s) ⊎ ((pre : Text) × (s ≡ pre ++ (c ∷ d)))

-- Where a `c` stands before `d`, `find` answers, and `d` is not lost behind its answer.
pub find-Behind :
    (c : ℕ) (pre d : Text)
    → (i : ℕ) × (find c (pre ++ (c ∷ d)) ≡ some i) × Behind c d (drop (suc i) (pre ++ (c ∷ d)))
unfolding find
find-Behind c [] d = (0, ground arith, inl refl)
find-Behind c (x ∷ xs) d = elim (Bool-cases (x == c)) [
  | inl e ↦ (0, ground arith, inr (xs, refl))
  | inr e ↦ let (i, found, b) = find-Behind c xs d in (suc i, ground arith, b)
]

pub Behind-trans :
    (c : ℕ) (d e s : Text)
    → Behind c d e
    → (pre : Text) → s ≡ pre ++ (c ∷ e)
    → (q : Text) × (s ≡ q ++ (c ∷ d))
Behind-trans c d e s (inl h) pre k = (pre, rw h k)
Behind-trans c d e s (inr (q, h)) pre k =
    (pre ++ (c ∷ q), rw (k, h) (sym (append_assoc pre (c ∷ q) (c ∷ d))))

-- A prefix that `starts_with` accepts is what `strip_prefix` takes off.
pub strip_prefix-eq : (p s t : Text) → strip_prefix p s ≡ some t → s ≡ p ++ t
unfolding strip_prefix
strip_prefix-eq [] s t h = ground arith
strip_prefix-eq (x ∷ p) [] t h = cc
strip_prefix-eq (x ∷ p) (y ∷ s) t h = ground (arith, strip_prefix-eq p s t)

pub strip_prefix-append : (p t : Text) → strip_prefix p (p ++ t) ≡ some t
unfolding strip_prefix
strip_prefix-append [] t = refl
strip_prefix-append (x ∷ p) t = ground (arith, strip_prefix-append p t)

pub starts_with-eq : (p s : Text) → starts_with p s ≡ true → (t : Text) × (s ≡ p ++ t)
unfolding starts_with
starts_with-eq [] s h = (s, refl)
starts_with-eq (x ∷ p) [] h = cc
starts_with-eq (x ∷ p) (y ∷ s) h =
    let (t, e) = starts_with-eq p s (ground arith) in (t, ground arith)

-- A text without the pattern's first character does not hold the pattern.
pub find_str-none : (c : ℕ) (p s : Text) → Free c s → find_str (c ∷ p) s ≡ none
unfolding find_str starts_with
find_str-none c p [] h = refl
find_str-none c p (x ∷ s) (n, h) = ground (arith, find_str-none c p s h)

pub find-Free : (c : ℕ) (s : Text) → Free c s → find c s ≡ none
unfolding find
find-Free c [] h = refl
find-Free c (x ∷ s) (n, h) = ground (arith, find-Free c s h)
