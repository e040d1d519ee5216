-- ===== src/Blocklist/Normal.antt =====
-- What `normalize` leaves of a line, and the lines that it leaves alone.
use rust_dns.Base.{
  ℕ, suc, ◌≡◌, ◌≢◌, true, [], ◌==◌, All, All-take, All-drop, Option-cases, inl, inr,
}
use rust_dns.Text.{Text, text, find, find_str, trim, trim_end_matches}
use rust_dns.Text.Search.{Free, find-some, find-none, find-Free, find_str-none}
use rust_dns.Text.Trim.{
  EndsClean, IsTrimmed, All-trim, All-trim_end_matches, trim-IsTrimmed, trim-clean,
  trim_end_matches-clean,
}
use rust_dns.Text.Unicode.{Unicode}
use rust_dns.Blocklist.{cut_at, after_scheme, normalize}

cut_at-Free : (c : ℕ) (d : Text) → Free c (cut_at c d)
unfolding cut_at
cut_at-Free c d = elim (Option-cases (find c d)) [
  | inl e ↦ rw (e, cut_at) (find-none c d e)
  | inr (i, e) ↦ rw (e, cut_at) (find-some c d i e).1
]

All-cut_at {κ} : (P : ℕ → Type κ) (c : ℕ) (d : Text) → All P d → All P (cut_at c d)
unfolding cut_at
All-cut_at P c d h = elim (Option-cases (find c d)) [
  | inl e ↦ rw (e, cut_at) h
  | inr (i, e) ↦ rw (e, cut_at) (All-take P i d h)
]

All-after_scheme {κ} : (P : ℕ → Type κ) (d : Text) → All P d → All P (after_scheme d)
unfolding after_scheme
All-after_scheme P d h = elim (Option-cases (find_str (text "://") d)) [
  | inl e ↦ rw (e, after_scheme) h
  | inr (i, e) ↦ rw (e, after_scheme) (All-drop P (suc (suc (suc i))) d h)
]

pub cut_at-clean : (c : ℕ) (d : Text) → Free c d → cut_at c d ≡ d
unfolding cut_at
cut_at-clean c d h = rw (find-Free c d h, cut_at)

pub after_scheme-clean : (d : Text) → Free b':' d → after_scheme d ≡ d
unfolding after_scheme
after_scheme-clean d h = rw (find_str-none b':' (text "//") d h, after_scheme)

module _ ⦃u : Unicode⦄ where
  abbrev pub IsLowerText : Text → Type 0
  IsLowerText d = All (λ c. u.is_lower c ≡ true) d

  -- What `normalize` promises.
  pub record IsNormal (d : Text) : Type 0 where
    pub lower : IsLowerText d
    pub no_slash : Free b'/' d
    pub no_colon : Free b':' d
    pub trimmed : IsTrimmed d

  -- The property that `normalize` hands down to what it returns, if what was lowered has it.
  All-normalize {κ} :
      (P : ℕ → Type κ) (raw : Text) → All P (u.to_lowercase (trim raw)) → All P (normalize raw)
  unfolding normalize
  All-normalize P raw h = All-trim P _ (
      All-trim_end_matches P b'.' _
        (All-cut_at P b':' _ (All-cut_at P b'/' _ (All-after_scheme P _ h))))

  -- Whatever the line, what is stored is lower case, without white space at its ends, and has no
  -- `/` and no `:`.
  pub normalize-IsNormal : (raw : Text) → IsNormal (normalize raw)
  unfolding normalize
  normalize-IsNormal raw =
      let whole = after_scheme (u.to_lowercase (trim raw)) in
      let host = cut_at b'/' whole in
      let name = cut_at b':' host in
      record {
        lower = unfold normalize in All-normalize _ raw (u.lowers (trim raw));
        no_slash =
            All-trim _ _
              (All-trim_end_matches _ b'.' name (All-cut_at _ b':' host (cut_at-Free b'/' whole)));
        no_colon = All-trim _ _ (All-trim_end_matches _ b'.' name (cut_at-Free b':' host));
        trimmed = trim-IsTrimmed (trim_end_matches b'.' name);
      }

  -- A domain as the file should hold it.
  pub record IsCanonical (d : Text) : Type 0 where
    pub normal : IsNormal d
    pub no_end_dot : EndsClean (λ x. x == b'.') d
    pub no_newline : Free b'\n' d
    pub not_empty : d ≢ []

  pub normalize-clean : (d : Text) → IsCanonical d → normalize d ≡ d
  unfolding normalize
  normalize-clean d h = rw (
    trim-clean d h.normal.trimmed,
    u.keeps d h.normal.lower,
    after_scheme-clean d h.normal.no_colon,
    cut_at-clean b'/' d h.normal.no_slash,
    cut_at-clean b':' d h.normal.no_colon,
    trim_end_matches-clean b'.' d h.no_end_dot,
    trim-clean d h.normal.trimmed,
  )
