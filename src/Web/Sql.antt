-- ===== src/Web/Sql.antt =====
-- What the escaped text of a filter is to a reader of SQL.
use rust_dns.Base.{
  ℕ, ◌≡◌, inl, inr, refl, sym, ap, ◌∙◌, false, Option, none, some, [], ◌∷◌, ◌++◌, arith, Bool-cases,
  if◌then◌else◌, ◌==◌, All,
}
use rust_dns.Text.{Text}
use rust_dns.Web.{double_quotes, drop_breaks, sql_escape}

abbrev pub prepend : Text → Option (Text × Text) → Option (Text × Text)
prepend s none = none
prepend s (some (t, rest)) = some (s ++ t, rest)

-- A string literal of SQL, behind the quote that opens it: two quotes stand for one, and one ends it.
-- The result is what the literal says, and what follows it.
unfoldable pub read_literal : Text → Option (Text × Text)
read_literal [] = none
read_literal (c ∷ []) = if c == b'\'' then some ([], []) else none
read_literal (c ∷ d ∷ s) =
    let behind_two = prepend (b'\'' ∷ []) (read_literal s) in
    let behind_one = prepend (c ∷ []) (read_literal (d ∷ s)) in
    if c == b'\'' then if d == b'\'' then behind_two else some ([], d ∷ s) else behind_one

prepend-prepend :
    (c : ℕ) (s : Text) (r : Option (Text × Text))
    → prepend (c ∷ []) (prepend s r) ≡ prepend (c ∷ s) r
prepend-prepend c s none = refl
prepend-prepend c s (some (t, rest)) = refl

-- A character that is no quote says itself.
read_literal-other :
    (c : ℕ) (s : Text)
    → (c == b'\'') ≡ false
    → read_literal (c ∷ s) ≡ prepend (c ∷ []) (read_literal s)
unfolding read_literal
read_literal-other c [] e = rw e refl
read_literal-other c (d ∷ s) e = rw e refl

read_literal-pair :
    (s : Text) → read_literal (b'\'' ∷ b'\'' ∷ s) ≡ prepend (b'\'' ∷ []) (read_literal s)
unfolding read_literal
read_literal-pair s = refl

prepend-nil : (r : Option (Text × Text)) → prepend [] r ≡ r
prepend-nil none = refl
prepend-nil (some (t, rest)) = refl

read_literal-double_quotes :
    (s after : Text) → read_literal (double_quotes s ++ after) ≡ prepend s (read_literal after)
unfolding double_quotes
read_literal-double_quotes [] after = sym (prepend-nil (read_literal after))
read_literal-double_quotes (c ∷ s) after =
    let ih = read_literal-double_quotes s after in
    let joined = ap (prepend (c ∷ [])) ih ∙ prepend-prepend c s (read_literal after) in
    elim (Bool-cases (c == b'\'')) [
      | inl quote ↦
          let same : b'\'' ≡ c = ground (arith, quote) in
          rw quote (
            read_literal-pair (double_quotes s ++ after)
            ∙ ap (λ x. prepend (x ∷ []) (read_literal (double_quotes s ++ after))) same
            ∙ joined)
      | inr plain ↦ rw plain (read_literal-other c (double_quotes s ++ after) plain ∙ joined)
    ]

-- What the literal's text must not begin with behind its end.
abbrev pub Ends : Text → Type 0
Ends [] = Unit
Ends (c ∷ rest) = (c == b'\'') ≡ false

abbrev pub NoQuote : Text → Type 0
NoQuote s = All (λ c. (c == b'\'') ≡ false) s

read_literal-end : (rest : Text) → Ends rest → read_literal (b'\'' ∷ rest) ≡ some ([], rest)
unfolding read_literal
read_literal-end [] e = refl
read_literal-end (c ∷ rest) e = rw e refl

read_literal-plain :
    (post rest : Text)
    → NoQuote post
    → Ends rest
    → read_literal (post ++ (b'\'' ∷ rest)) ≡ some (post, rest)
read_literal-plain [] rest free end = read_literal-end rest end
read_literal-plain (c ∷ post) rest (e, free) end =
    read_literal-other c (post ++ (b'\'' ∷ rest)) e
    ∙ ap (prepend (c ∷ [])) (read_literal-plain post rest free end)

double_quotes-free :
    (s : Text) → All (λ c. (c == b';') ≡ false) s → All (λ c. (c == b';') ≡ false) (double_quotes s)
unfolding double_quotes
double_quotes-free [] h = tt
double_quotes-free (c ∷ s) (e, h) = elim (Bool-cases (c == b'\'')) [
  | inl quote ↦ rw quote (refl, (refl, double_quotes-free s h))
  | inr plain ↦ rw plain (e, double_quotes-free s h)
]

drop_breaks-free : (s : Text) → All (λ c. (c == b';') ≡ false) (drop_breaks s)
unfolding drop_breaks
drop_breaks-free [] = tt
drop_breaks-free (c ∷ s) = elim (Bool-cases (c == b';')) [
  | inl break ↦ rw break (drop_breaks-free s)
  | inr kept ↦ elim (Bool-cases (c == b'\\')) [
    | inl break ↦ rw (kept, break) (drop_breaks-free s)
    | inr plain ↦ rw (kept, plain) (kept, drop_breaks-free s)
  ]
]

-- Whatever the text, escaped and followed by `post` and a quote it is read as one string literal that
-- says the text without `;` and `\`, and `post`; what follows the literal is left as it is, and the
-- escaped text has no `;`. `post` has no quote, and what follows does not begin with one.
pub sql_escape-literal :
    (s post rest : Text)
    → NoQuote post
    → Ends rest
    → (read_literal (sql_escape s ++ (post ++ (b'\'' ∷ rest))) ≡ some (drop_breaks s ++ post, rest))
      × All (λ c. (c == b';') ≡ false) (sql_escape s)
unfolding sql_escape
sql_escape-literal s post rest free end = (
  read_literal-double_quotes (drop_breaks s) (post ++ (b'\'' ∷ rest))
      ∙ ap (prepend (drop_breaks s)) (read_literal-plain post rest free end),
  double_quotes-free (drop_breaks s) (drop_breaks-free s),
)
