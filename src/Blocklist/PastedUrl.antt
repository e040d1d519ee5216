-- ===== src/Blocklist/PastedUrl.antt =====
-- Lines that are URLs: what is kept of them, and one kind that the file does not keep.
use rust_dns.Base.{
  ℕ, ◌≡◌, refl, ◌≢◌, inl, inr, Bool, true, false, [], ◌∷◌, ◌++◌, arith, All, Bool-cases, ◌==◌,
}
use rust_dns.Text.{Text, text, find_str, starts_with, is_whitespace}
use rust_dns.Text.Trim.{EndsClean, IsTrimmed, trim-clean, trim_end_matches-clean}
use rust_dns.Text.Unicode.{Unicode}
use rust_dns.Blocklist.{
  empty, normalize, after_scheme, load_line, is_blocked, starred, to_file_text, from_text,
}
use rust_dns.Blocklist.Match.{SelfOrAncestor, Ancestor}
use rust_dns.Blocklist.Normal.{IsCanonical, cut_at-clean}
use rust_dns.Blocklist.Entry.{
  only_exact, only_wildcard, blocked_by_one, nonempty, insert-empty, blocked_by_one_wildcard,
}
use rust_dns.Blocklist.RoundTrip.{is_blocked-from_text-to_file_text}

abbrev pub url : Text → Text
url host = text "https://" ++ host

after_scheme-url : (host : Text) → after_scheme (url host) ≡ host
unfolding after_scheme find_str starts_with
after_scheme-url host = refl

url-IsTrimmed : (host : Text) → host ≢ [] → IsTrimmed host → IsTrimmed (url host)
unfolding is_whitespace
url-IsTrimmed [] n h = absurd (n refl)
url-IsTrimmed (x ∷ host) n h = (refl, h.1)

module _ ⦃u : Unicode⦄ where
  lower_url :
      (host : Text)
      → All (λ c. u.is_lower c ≡ true) host
      → All (λ c. u.is_lower c ≡ true) (url host)
  lower_url host h = (
    u.ascii_lower b'h' (omega arith) refl,
    (
      u.ascii_lower b't' (omega arith) refl,
      (
        u.ascii_lower b't' (omega arith) refl,
        (
          u.ascii_lower b'p' (omega arith) refl,
          (
            u.ascii_lower b's' (omega arith) refl,
            (
              u.ascii_lower b':' (omega arith) refl,
              (u.ascii_lower b'/' (omega arith) refl, (u.ascii_lower b'/' (omega arith) refl, h)),
            ),
          ),
        ),
      ),
    ),
  )

  -- Of a URL with nothing behind its host, the host is kept.
  pub normalize-url : (host : Text) → IsCanonical host → normalize (url host) ≡ host
  unfolding normalize
  normalize-url host h = rw (
    trim-clean (url host) (url-IsTrimmed host h.not_empty h.normal.trimmed),
    u.keeps (url host) (lower_url host h.normal.lower),
    after_scheme-url host,
    cut_at-clean b'/' host h.normal.no_slash,
    cut_at-clean b':' host h.normal.no_colon,
    trim_end_matches-clean b'.' host h.no_end_dot,
    trim-clean host h.normal.trimmed,
  )

  starred-IsLower :
      (d : Text) → All (λ c. u.is_lower c ≡ true) d → All (λ c. u.is_lower c ≡ true) (starred d)
  starred-IsLower d h =
      (u.ascii_lower b'*' (omega arith) refl, (u.ascii_lower b'.' (omega arith) refl, h))

  ends_starred : (p : ℕ → Bool) (d : Text) → d ≢ [] → EndsClean p d → EndsClean p (starred d)
  ends_starred p [] n h = absurd (n refl)
  ends_starred p (x ∷ d) n h = h

  starred-IsCanonical : (d : Text) → IsCanonical d → IsCanonical (starred d)
  unfolding is_whitespace
  starred-IsCanonical d c = record {
    normal = record {
      lower = starred-IsLower d c.normal.lower;
      no_slash = (omega arith, (omega arith, c.normal.no_slash));
      no_colon = (omega arith, (omega arith, c.normal.no_colon));
      trimmed = (refl, ends_starred is_whitespace d c.not_empty c.normal.trimmed.1);
    };
    no_end_dot = ends_starred (λ x. x == b'.') d c.not_empty c.no_end_dot;
    no_newline = (omega arith, (omega arith, c.no_newline));
    not_empty = λ e. cc;
  }

  load_line-url : (host : Text) → IsCanonical host → load_line empty (url host) ≡ only_exact host
  unfolding load_line
  load_line-url host h = ground (
    arith,
    trim-clean (url host) (url-IsTrimmed host h.not_empty h.normal.trimmed),
    nonempty host h.not_empty,
    normalize-url host h,
    insert-empty host,
  )

  -- The two lists have the same file.
  file_of_url : (d : Text) → to_file_text (only_exact (starred d)) ≡ to_file_text (only_wildcard d)
  unfolding to_file_text
  file_of_url d = refl

  reloaded :
      (d name : Text)
      → IsCanonical d
      → Ancestor d name
      → is_blocked (from_text (to_file_text (only_exact (starred d)))) name ≡ true
  reloaded d name c above =
      rw
        (
          file_of_url d,
          is_blocked-from_text-to_file_text (only_wildcard d) name
              (record { exact = tt; wildcard = (c, tt) }),
        )
        ((blocked_by_one_wildcard d name).1 above)

  -- The line `https://*.d`, for a canonical `d`, blocks no proper subdomain of `d` that is not
  -- `*.d` or below it; once the list was saved and read again, it blocks all of them.
  pub pasted_wildcard_changes :
      (d name : Text)
      → IsCanonical d
      → Ancestor d name
      → ¬ SelfOrAncestor (starred d) name
      → (is_blocked (load_line empty (url (starred d))) name ≡ false)
        × (is_blocked (from_text (to_file_text (load_line empty (url (starred d))))) name ≡ true)
  pasted_wildcard_changes d name c above off =
      rw (load_line-url (starred d) (starred-IsCanonical d c)) (
        elim (Bool-cases (is_blocked (only_exact (starred d)) name)) [
          | inl yes_blocked ↦ absurd (off ((blocked_by_one (starred d) name).0 yes_blocked))
          | inr passed ↦ passed
        ],
        reloaded d name c above,
      )
