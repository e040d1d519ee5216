-- ===== src/Web/Gate.antt =====
-- Which requests `auth` lets pass.
use rust_dns.Base.{
  append-nil, append_assoc, is_empty, ℕ, zero, suc, ◌≡◌, ◌⊎◌, inl, inr, refl, sym, ap, ◌∙◌, Bool,
  true, false, none, some, [], ◌∷◌, ◌++◌, length, arith, Bool-cases, Option-cases, some-inj, ◌==◌,
}
use rust_dns.Text.{
  Text, strip_prefix, trim_start_by, trim_end_by, trim, starts_with, text, keep_before,
  is_whitespace, equal_iff, equal_refl,
}
use rust_dns.Web.{trim_start_matches, bearer, auth, Request, header_bearer, header_token}
use rust_dns.Text.Trim.{IsTrimmed, trim-clean}

-- The token stands in one of the two headers.
abbrev pub Presents : Text → Request → Type 0
Presents token req =
    (req.x_admin_token ≡ some token)
    ⊎ ((before : Text) × (after : Text) × (req.authorization ≡ some (before ++ (token ++ after))))

Cut : Text → Text → Type 0
Cut s part = (a : Text) × (b : Text) × (s ≡ a ++ (part ++ b))

Cut-refl : (s : Text) → Cut s s
unfolding Cut
Cut-refl s = ([], [], sym (append-nil s))

Cut-trans : (s t r : Text) → Cut s t → Cut t r → Cut s r
unfolding Cut
Cut-trans s t r (a, b, e) (a', b', e') = (
  a ++ a',
  b' ++ b,
  e
      ∙ ap (λ x. a ++ (x ++ b)) e'
      ∙ ap (λ x. a ++ x) (append_assoc a' (r ++ b') b ∙ ap (λ x. a' ++ x) (append_assoc r b' b))
      ∙ sym (append_assoc a a' (r ++ (b' ++ b))),
)

strip_prefix-Cut : (p s t : Text) → strip_prefix p s ≡ some t → Cut s t
unfolding strip_prefix Cut
strip_prefix-Cut [] s t e = rw (some-inj e) (Cut-refl t)
strip_prefix-Cut (x ∷ p) [] t e = cc
strip_prefix-Cut (x ∷ p) (y ∷ s) t e = elim (Bool-cases (x == y)) [
  | inl same ↦
      let (a, b, split) = strip_prefix-Cut p s t (ground (arith, e, same)) in
      (y ∷ a, b, ap (λ l. y ∷ l) split)
  | inr other ↦ absurd (ground (arith, e, other))
]

trim_start_matches-Cut : (fuel : ℕ) (p s : Text) → Cut s (trim_start_matches fuel p s)
unfolding trim_start_matches
trim_start_matches-Cut zero p s = Cut-refl s
trim_start_matches-Cut (suc fuel) p s = elim (Option-cases (strip_prefix p s)) [
  | inl stays ↦ rw (stays, trim_start_matches) (Cut-refl s)
  | inr (rest, stripped) ↦
      rw (stripped, trim_start_matches)
        (Cut-trans s rest (trim_start_matches fuel p rest) (strip_prefix-Cut p s rest stripped)
          (trim_start_matches-Cut fuel p rest))
]

trim_start_by-Cut : (p : ℕ → Bool) (s : Text) → Cut s (trim_start_by p s)
unfolding trim_start_by Cut
trim_start_by-Cut p [] = ([], [], refl)
trim_start_by-Cut p (x ∷ s) = elim (Bool-cases (p x)) [
  | inl cut ↦ let (a, b, e) = trim_start_by-Cut p s in rw cut (x ∷ a, b, ap (λ l. x ∷ l) e)
  | inr stays ↦ rw stays (Cut-refl (x ∷ s))
]

keep_before-prefix :
    (t : Bool) (x : ℕ) (kept b : Text)
    → (b' : Text) × (x ∷ (kept ++ b) ≡ keep_before t x kept ++ b')
keep_before-prefix t x (y ∷ ys) b = (b, refl)
keep_before-prefix true x [] b = (x ∷ b, refl)
keep_before-prefix false x [] b = (b, refl)

trim_end_by-prefix : (p : ℕ → Bool) (s : Text) → (b : Text) × (s ≡ trim_end_by p s ++ b)
unfolding trim_end_by
trim_end_by-prefix p [] = ([], refl)
trim_end_by-prefix p (x ∷ s) =
    let (b, e) = trim_end_by-prefix p s in
    let (b', e') = keep_before-prefix (p x) x (trim_end_by p s) b in (b', ap (λ l. x ∷ l) e ∙ e')

bearer-Cut : (s : Text) → Cut s (bearer s)
unfolding bearer trim
bearer-Cut s =
    let p = text "Bearer " in
    let inner = trim_start_matches (length s) p s in
    let front = trim_start_by is_whitespace inner in
    let (b, e) = trim_end_by-prefix is_whitespace front in
    Cut-trans s inner (bearer s) (trim_start_matches-Cut (length s) p s) (
      Cut-trans inner front (bearer s) (trim_start_by-Cut is_whitespace inner)
        (unfold Cut in ([], b, e)))

header_bearer-Presents :
    (token : Text) (req : Request)
    → header_bearer token req.authorization ≡ true
    → Presents token req
unfolding header_bearer Cut
header_bearer-Presents token req e = elim (Option-cases req.authorization) [
  | inl absent ↦ absurd (ground (arith, e, absent))
  | inr (s, sent) ↦
      let same = (equal_iff (bearer s) token).0 (ground (arith, e, sent)) in
      let (a, b, split) = rw same at (bearer-Cut s) in inr (a, b, sent ∙ ap some split)
]

header_token-Presents :
    (token : Text) (req : Request)
    → header_token token req.x_admin_token ≡ true
    → Presents token req
unfolding header_token
header_token-Presents token req e = elim (Option-cases req.x_admin_token) [
  | inl absent ↦ absurd (ground (arith, e, absent))
  | inr (s, sent) ↦ inl (sent ∙ ap some ((equal_iff s token).0 (ground (arith, e, sent))))
]

-- A request for a path of the API that passes, while the token is not empty, has the token in one of
-- its two headers: as the whole `x-admin-token`, or somewhere in `authorization`.
pub auth-Presents :
    (token : Text) (req : Request)
    → starts_with (text "/api") req.path ≡ true
    → is_empty token ≡ false
    → auth token req ≡ true
    → Presents token req
unfolding auth
auth-Presents token req api secret passes =
    elim (Bool-cases (header_bearer token req.authorization)) [
      | inl bears ↦ header_bearer-Presents token req bears
      | inr no_bearer ↦
          header_token-Presents token req (ground (arith, api, secret, passes, no_bearer))
    ]

bearer-token :
    (token : Text)
    → IsTrimmed token
    → strip_prefix (text "Bearer ") token ≡ none
    → bearer (text "Bearer " ++ token) ≡ token
unfolding bearer trim_start_matches strip_prefix
bearer-token token clean plain = rw plain (trim-clean token clean)

-- A request that has the token in `x-admin-token`, or in `authorization` behind the word `Bearer`,
-- passes, the latter if the token has no white space at its ends and does not begin with the word.
pub auth-accepts :
    (token : Text) (req : Request)
    → IsTrimmed token
    → strip_prefix (text "Bearer ") token ≡ none
    → (req.x_admin_token ≡ some token) ⊎ (req.authorization ≡ some (text "Bearer " ++ token))
    → auth token req ≡ true
unfolding auth header_token header_bearer
auth-accepts token req clean plain (inl sent) = ground (arith, sent, equal_refl token)
auth-accepts token req clean plain (inr sent) =
    ground (arith, sent, bearer-token token clean plain, equal_refl token)
