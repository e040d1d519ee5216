-- ===== src/Blocklist/Entry.antt =====
-- What one line of the file blocks: a plain domain with its subdomains, a wildcard only those.
use rust_dns.Base.{
  ◌≡◌, refl, ◌≢◌, ◌↔◌, inl, inr, true, false, none, List, [], ◌∷◌, arith, is_empty, Bool-cases, In,
  here, there, ◌||◌, sym,
}
use rust_dns.Base.{◌≢◌, ◌↔◌, inl, inr, not-In-nil, refl}
use rust_dns.Blocklist.{is_blocked}
use rust_dns.Blocklist.Match.{SelfOrAncestor, Ancestor, is_blocked_iff}
use rust_dns.Text.{Text, text, equal, equal_iff, starts_with, strip_prefix, is_whitespace}
use rust_dns.Text.Search.{strip_prefix-append}
use rust_dns.Text.Trim.{IsTrimmed, trim-clean}
use rust_dns.Text.Unicode.{Unicode}
use rust_dns.Blocklist.{Blocklist, contains, insert, empty, load_line, starred}
use rust_dns.Blocklist.Normal.{IsCanonical, normalize-clean}

pub contains_iff : (set : List Text) (d : Text) → (contains set d ≡ true) ↔ In d set
unfolding contains
contains_iff [] d = (λ h. cc, λ m. elim m [ ])
contains_iff (e ∷ es) d = (forth (contains_iff es d), back (contains_iff es d))
  where
    forth : (contains es d ≡ true) ↔ In d es → (equal e d || contains es d) ≡ true → In d (e ∷ es)
    forth ih h = elim (Bool-cases (equal e d)) [
      | inl same ↦ here (sym ((equal_iff e d).0 same))
      | inr other ↦ there (ih.0 (ground arith))
    ]

    back : (contains es d ≡ true) ↔ In d es → In d (e ∷ es) → (equal e d || contains es d) ≡ true
    back ih (here same) = ground (arith, (equal_iff e d).1 (sym same))
    back ih (there m) = ground (arith, ih.1 m)

-- The file would read the line of such a plain entry as something else.
abbrev pub IsPlain : Text → Type 0
IsPlain d = (starts_with (text "#") d ≡ false) × (strip_prefix (text "*.") d ≡ none)

abbrev pub only_exact : Text → Blocklist
only_exact d = record { exact = d ∷ []; wildcard = [] }

abbrev pub only_wildcard : Text → Blocklist
only_wildcard d = record { exact = []; wildcard = d ∷ [] }

pub nonempty : (d : Text) → d ≢ [] → is_empty d ≡ false
nonempty [] h = absurd (h refl)
nonempty (x ∷ d) h = refl

pub insert-empty : (d : Text) → insert d [] ≡ d ∷ []
unfolding insert contains
insert-empty d = refl

starred-IsTrimmed : (d : Text) → d ≢ [] → IsTrimmed d → IsTrimmed (starred d)
unfolding is_whitespace
starred-IsTrimmed [] n h = absurd (n refl)
starred-IsTrimmed (x ∷ d) n h = (refl, h.1)

contains_one : (d e : Text) → contains (d ∷ []) e ≡ true → e ≡ d
contains_one d e h = elim ((contains_iff (d ∷ []) e).0 h) [
  | here same ↦ same
  | there m ↦ elim m [ ]
]

contains_none : (d : Text) → contains [] d ≢ true
contains_none d h = not-In-nil ((contains_iff [] d).0 h)

pub blocked_by_one :
    (d name : Text) → (is_blocked (only_exact d) name ≡ true) ↔ SelfOrAncestor d name
blocked_by_one d name = (forth, back)
  where
    forth : is_blocked (only_exact d) name ≡ true → SelfOrAncestor d name
    forth h = elim ((is_blocked_iff (only_exact d) name).0 h) [
      | inl c ↦ rw (contains_one d c.domain c.listed) at c.reach
      | inr c ↦ absurd (contains_none c.domain c.listed)
    ]

    back : SelfOrAncestor d name → is_blocked (only_exact d) name ≡ true
    back r =
        (is_blocked_iff (only_exact d) name).1
          (inl (record { domain = d; listed = (contains_iff (d ∷ []) d).1 (here refl); reach = r }))

pub blocked_by_one_wildcard :
    (d name : Text) → (is_blocked (only_wildcard d) name ≡ true) ↔ Ancestor d name
blocked_by_one_wildcard d name = (forth, back)
  where
    forth : is_blocked (only_wildcard d) name ≡ true → Ancestor d name
    forth h = elim ((is_blocked_iff (only_wildcard d) name).0 h) [
      | inl c ↦ absurd (contains_none c.domain c.listed)
      | inr c ↦ rw (contains_one d c.domain c.listed) at c.reach
    ]

    back : Ancestor d name → is_blocked (only_wildcard d) name ≡ true
    back r =
        (is_blocked_iff (only_wildcard d) name).1
          (inr (record { domain = d; listed = (contains_iff (d ∷ []) d).1 (here refl); reach = r }))

module _ ⦃u : Unicode⦄ (d : Text) (canonical : IsCanonical d) where
  pub load_line-plain : IsPlain d → load_line empty d ≡ only_exact d
  unfolding load_line
  load_line-plain (hash, star) = ground (
    arith,
    trim-clean d canonical.normal.trimmed,
    nonempty d canonical.not_empty,
    normalize-clean d canonical,
    insert-empty d,
  )

  pub load_line-starred : load_line empty (starred d) ≡ only_wildcard d
  unfolding load_line
  load_line-starred = ground (
    arith,
    trim-clean (starred d) (starred-IsTrimmed d canonical.not_empty canonical.normal.trimmed),
    nonempty d canonical.not_empty,
    strip_prefix-append (text "*.") d,
    normalize-clean d canonical,
    insert-empty d,
  )

  -- The line of a plain domain blocks that domain and every subdomain, and nothing else.
  pub plain_line_blocks :
      (name : Text)
      → IsPlain d
      → (is_blocked (load_line empty d) name ≡ true) ↔ SelfOrAncestor d name
  plain_line_blocks name plain = rw (load_line-plain plain) (blocked_by_one d name)

  -- The line `*.d` blocks every subdomain of `d`, and nothing else.
  pub wildcard_line_blocks :
      (name : Text) → (is_blocked (load_line empty (starred d)) name ≡ true) ↔ Ancestor d name
  wildcard_line_blocks name = rw load_line-starred (blocked_by_one_wildcard d name)
