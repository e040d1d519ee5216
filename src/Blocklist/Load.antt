-- ===== src/Blocklist/Load.antt =====
-- `from_text` loads each line for itself: neither their order nor repetition matters.
use rust_dns.Base.{
  ◌≡◌, refl, ◌⊎◌, ◌↔◌, inl, inr, true, false, ◌||◌, List, [], ◌∷◌, arith, Bool-cases, Option-cases,
  In, here, there, not-In-nil, not_both,
}
use rust_dns.Text.{Text, text, equal, equal_iff, trim, strip_prefix, lines}
use rust_dns.Blocklist.Match.{Covers, CoversBelow, is_blocked_iff}
use rust_dns.Text.Unicode.{Unicode}
use rust_dns.Blocklist.{
  Blocklist, contains, insert, empty, normalize, load_line, load_lines, from_text, is_blocked,
}

pub contains-insert :
    (d e : Text) (set : List Text) → contains (insert d set) e ≡ (equal d e || contains set e)
unfolding insert contains
contains-insert d e set = ground (arith, equal_iff d e)

contains-nil : (d : Text) → contains [] d ≡ false
unfolding contains
contains-nil d = refl

module _ ⦃u : Unicode⦄ where
  -- What a line adds to either set does not depend on what is there.
  exact-load_line :
      (bl : Blocklist) (line d : Text)
      → contains (load_line bl line).exact d
        ≡ (contains (load_line empty line).exact d || contains bl.exact d)
  unfolding load_line
  exact-load_line bl line d = ground (
    arith,
    contains-insert (normalize (trim line)) d bl.exact,
    contains-insert (normalize (trim line)) d [],
    contains-nil d,
  )

  -- The part of a wildcard line behind its `*.`, as `load_line` reads it.
  wildcard-load_line :
      (bl : Blocklist) (line d : Text)
      → contains (load_line bl line).wildcard d
        ≡ (contains (load_line empty line).wildcard d || contains bl.wildcard d)
  unfolding load_line
  wildcard-load_line bl line d = elim (Option-cases (strip_prefix (text "*.") (trim line))) [
    | inl e ↦ ground (arith, contains-nil d)
    | inr (rest, e) ↦ ground (
      arith,
      contains-insert (normalize rest) d bl.wildcard,
      contains-insert (normalize rest) d [],
      contains-nil d,
    )
  ]

  -- `sel` is one of the two sets, and `step` what has just been shown of it.
  module _ (sel : Blocklist → List Text)
      (step : (bl : Blocklist) (line d : Text)
        → contains (sel (load_line bl line)) d
          ≡ (contains (sel (load_line empty line)) d || contains (sel bl) d)) where
    Listed : Blocklist → List Text → Text → Type 0
    Listed bl ls d =
        (contains (sel bl) d ≡ true)
        ⊎ ((line : Text) × In line ls × (contains (sel (load_line empty line)) d ≡ true))

    load_lines-Listed :
        (bl : Blocklist) (ls : List Text) (d : Text)
        → contains (sel (load_lines bl ls)) d ≡ true
        → Listed bl ls d
    unfolding load_lines Listed
    load_lines-Listed bl [] d h = inl h
    load_lines-Listed bl (l ∷ ls) d h = elim (load_lines-Listed (load_line bl l) ls d h) [
      | inl e ↦ elim (Bool-cases (contains (sel (load_line empty l)) d)) [
        | inl now ↦ inr (l, here refl, now)
        | inr before ↦ inl (ground (arith, step bl l d))
      ]
      | inr (line, m, e) ↦ inr (line, there m, e)
    ]

    Listed-load_lines :
        (bl : Blocklist) (ls : List Text) (d : Text)
        → Listed bl ls d
        → contains (sel (load_lines bl ls)) d ≡ true
    unfolding load_lines Listed
    Listed-load_lines bl [] d (inl h) = h
    Listed-load_lines bl [] d (inr (line, m, h)) = absurd (not-In-nil m)
    Listed-load_lines bl (l ∷ ls) d (inl h) =
        Listed-load_lines (load_line bl l) ls d (inl (ground (arith, step bl l d)))
    Listed-load_lines bl (l ∷ ls) d (inr (line, here e, h)) =
        Listed-load_lines (load_line bl l) ls d (inl (ground (arith, step bl l d)))
    Listed-load_lines bl (l ∷ ls) d (inr (line, there m, h)) =
        Listed-load_lines (load_line bl l) ls d (inr (line, m, h))

  exact-from_text :
      (s d : Text)
      → contains (from_text s).exact d ≡ true
      → (line : Text) × In line (lines s) × (contains (load_line empty line).exact d ≡ true)
  unfolding from_text Listed
  exact-from_text s d h =
      elim (load_lines-Listed (λ bl. bl.exact) exact-load_line empty (lines s) d h) [
        | inl e ↦ not_both e (contains-nil d)
        | inr l ↦ l
      ]

  wildcard-from_text :
      (s d : Text)
      → contains (from_text s).wildcard d ≡ true
      → (line : Text) × In line (lines s) × (contains (load_line empty line).wildcard d ≡ true)
  unfolding from_text Listed
  wildcard-from_text s d h =
      elim (load_lines-Listed (λ bl. bl.wildcard) wildcard-load_line empty (lines s) d h) [
        | inl e ↦ not_both e (contains-nil d)
        | inr l ↦ l
      ]

  -- A list blocks a name exactly when one of its lines, loaded alone, blocks it.
  pub is_blocked-from_text_iff :
      (s name : Text)
      → (is_blocked (from_text s) name ≡ true)
        ↔ ((line : Text) × In line (lines s) × (is_blocked (load_line empty line) name ≡ true))
  unfolding Listed
  is_blocked-from_text_iff s name = (forth, back)
    where
      forth :
          is_blocked (from_text s) name ≡ true
          → (line : Text) × In line (lines s) × (is_blocked (load_line empty line) name ≡ true)
      forth h = elim ((is_blocked_iff (from_text s) name).0 h) [
        | inl c ↦
            let (line, m, e) = exact-from_text s c.domain c.listed in
            let c' : Covers (load_line empty line).exact name = record {
              domain = c.domain;
              listed = e;
              reach = c.reach;
            } in
            (line, m, (is_blocked_iff (load_line empty line) name).1 (inl c'))
        | inr c ↦
            let (line, m, e) = wildcard-from_text s c.domain c.listed in
            let c' : CoversBelow (load_line empty line).wildcard name = record {
              domain = c.domain;
              listed = e;
              reach = c.reach;
            } in
            (line, m, (is_blocked_iff (load_line empty line) name).1 (inr c'))
      ]

      back :
          (line : Text) × In line (lines s) × (is_blocked (load_line empty line) name ≡ true)
          → is_blocked (from_text s) name ≡ true
      back (line, m, h) = elim ((is_blocked_iff (load_line empty line) name).0 h) [
        | inl c ↦ (is_blocked_iff (from_text s) name).1 (
            inl (record {
              domain = c.domain;
              listed =
                  unfold from_text in
                  Listed-load_lines (λ bl. bl.exact) exact-load_line empty (lines s) c.domain
                    (inr (line, m, c.listed));
              reach = c.reach;
            }))
        | inr c ↦ (is_blocked_iff (from_text s) name).1 (
            inr (record {
              domain = c.domain;
              listed =
                  unfold from_text in
                  Listed-load_lines (λ bl. bl.wildcard) wildcard-load_line empty (lines s) c.domain
                    (inr (line, m, c.listed));
              reach = c.reach;
            }))
      ]
