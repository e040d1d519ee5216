-- ===== src/Blocklist/RoundTrip.antt =====
-- The file that `to_file_text` writes, read back by `from_text`.
use rust_dns.Base.{
  ◌≡◌, refl, ◌↔◌, ◌⊎◌, inl, inr, true, List, [], ◌∷◌, ◌++◌, map, All, All-In, All-of_In, In, here,
  there, not-In-nil, ◌≢◌, In-append, In-append_left, In-append_right, In-map, map-In, Bool-eq_iff,
  ◌==◌, arith,
}
use rust_dns.Text.{Text, text, lines, lines_from, strip_last, join, sort, is_whitespace, trim}
use rust_dns.Text.Lines.{IsLine, join-unlines, lines-unlines}
use rust_dns.Text.Order.{In-sort_iff}
use rust_dns.Text.Trim.{EndsClean}
use rust_dns.Text.Unicode.{Unicode}
use rust_dns.Blocklist.{
  Blocklist, starred, to_sorted_vec, to_file_text, from_text, load_line, empty, is_blocked,
}
use rust_dns.Blocklist.Match.{is_blocked_iff}
use rust_dns.Blocklist.Normal.{IsCanonical}
use rust_dns.Blocklist.Entry.{IsPlain, contains_iff, plain_line_blocks, wildcard_line_blocks}
use rust_dns.Blocklist.Load.{is_blocked-from_text_iff}

-- What is listed for display and for the file.
pub In-to_sorted_vec_iff :
    (bl : Blocklist) (l : Text)
    → In l (to_sorted_vec bl) ↔ (In l bl.exact ⊎ ((d : Text) × In d bl.wildcard × (l ≡ starred d)))
unfolding to_sorted_vec
In-to_sorted_vec_iff bl l = (forth, back)
  where
    forth :
        In l (sort (bl.exact ++ map starred bl.wildcard))
        → In l bl.exact ⊎ ((d : Text) × In d bl.wildcard × (l ≡ starred d))
    forth m =
        elim (In-append bl.exact ((In-sort_iff l (bl.exact ++ map starred bl.wildcard)).0 m)) [
          | inl k ↦ inl k
          | inr k ↦ inr (In-map starred bl.wildcard k)
        ]

    back :
        In l bl.exact ⊎ ((d : Text) × In d bl.wildcard × (l ≡ starred d))
        → In l (sort (bl.exact ++ map starred bl.wildcard))
    back (inl k) =
        (In-sort_iff l (bl.exact ++ map starred bl.wildcard)).1
          (In-append_left (map starred bl.wildcard) k)
    back (inr (d, k, e)) =
        (In-sort_iff l (bl.exact ++ map starred bl.wildcard)).1
          (rw e (In-append_right bl.exact (map-In starred k)))

no_final_cr : (s : Text) → EndsClean is_whitespace s → EndsClean (λ x. x == b'\r') s
unfolding is_whitespace
no_final_cr [] h = tt
no_final_cr (x ∷ []) h = ground arith
no_final_cr (x ∷ y ∷ ys) h = no_final_cr (y ∷ ys) h

starred-EndsClean :
    (d : Text) → EndsClean (λ x. x == b'\r') d → EndsClean (λ x. x == b'\r') (starred d)
starred-EndsClean [] h = refl
starred-EndsClean (x ∷ d) h = h

module _ ⦃u : Unicode⦄ where
  -- Every entry stands in the file as the line that it would be read from.
  pub record IsSaved (bl : Blocklist) : Type 0 where
    pub exact : All (λ d. IsCanonical d × IsPlain d) bl.exact
    pub wildcard : All IsCanonical bl.wildcard

  IsCanonical-IsLine : (d : Text) → IsCanonical d → IsLine d
  IsCanonical-IsLine d c = (c.no_newline, no_final_cr d c.normal.trimmed.1)

  -- A line of the file, with what it blocks.
  abbrev Saved : Blocklist → Text → Type 0
  Saved bl l =
      (In l bl.exact × IsCanonical l × IsPlain l)
      ⊎ ((d : Text) × In d bl.wildcard × IsCanonical d × (l ≡ starred d))

  sorted-Saved : (bl : Blocklist) → IsSaved bl → (l : Text) → In l (to_sorted_vec bl) → Saved bl l
  sorted-Saved bl saved l m = elim ((In-to_sorted_vec_iff bl l).0 m) [
    | inl k ↦
        let (c, p) = All-In (λ d. IsCanonical d × IsPlain d) bl.exact saved.exact k in inl (k, c, p)
    | inr (d, k, e) ↦ inr (d, k, All-In IsCanonical bl.wildcard saved.wildcard k, e)
  ]

  Saved-IsLine : (bl : Blocklist) (l : Text) → Saved bl l → IsLine l
  Saved-IsLine bl l (inl (m, c, p)) = IsCanonical-IsLine l c
  Saved-IsLine bl l (inr (d, m, c, e)) =
      let (free, clean) = IsCanonical-IsLine d c in
      rw e ((omega arith, (omega arith, free)), starred-EndsClean d clean)

-- The lines of a file: those that were written, or one empty line if there were none.
abbrev file_of : List Text → Text
file_of ss = join (text "\n") ss ++ text "\n"

lines-file_of :
    (ss : List Text)
    → All IsLine ss
    → (lines (file_of ss) ≡ ss) ⊎ ((ss ≡ []) × (lines (file_of ss) ≡ [] ∷ []))
lines-file_of [] h = inr (refl, unfold lines lines_from strip_last join in refl)
lines-file_of (s ∷ ss) h = inl (rw (join-unlines s ss) (lines-unlines (s ∷ ss) h))

In-lines-file_of :
    (ss : List Text) (l : Text) → All IsLine ss → In l (lines (file_of ss)) → In l ss ⊎ (l ≡ [])
In-lines-file_of ss l h m = elim (lines-file_of ss h) [
  | inl e ↦ inl (rw e at m)
  | inr (_, e) ↦ inr (one (rw e at m))
]
  where
    one : In l ([] ∷ []) → l ≡ []
    one (here e) = e
    one (there k) = absurd (not-In-nil k)

lines-file_of-In : (ss : List Text) (l : Text) → All IsLine ss → In l ss → In l (lines (file_of ss))
lines-file_of-In ss l h m = elim (lines-file_of ss h) [
  | inl e ↦ rw e m
  | inr (e, _) ↦ absurd (not-In-nil (rw e at m))
]

module _ ⦃u : Unicode⦄ where
  load_line-blank : (name : Text) → is_blocked (load_line empty []) name ≢ true
  unfolding load_line trim
  load_line-blank name h = elim ((is_blocked_iff empty name).0 h) [
    | inl c ↦ not-In-nil ((contains_iff [] c.domain).0 c.listed)
    | inr c ↦ not-In-nil ((contains_iff [] c.domain).0 c.listed)
  ]

  module _ (bl : Blocklist) (saved : IsSaved bl) (name : Text) where
    blocked_by_entry :
        (l : Text)
        → Saved bl l
        → is_blocked (load_line empty l) name ≡ true
        → is_blocked bl name ≡ true
    blocked_by_entry l (inl (m, c, p)) h = (is_blocked_iff bl name).1 (
        inl (record {
          domain = l;
          listed = (contains_iff bl.exact l).1 m;
          reach = (plain_line_blocks l c name p).0 h;
        }))
    blocked_by_entry l (inr (d, m, c, e)) h = (is_blocked_iff bl name).1 (
        inr (record {
          domain = d;
          listed = (contains_iff bl.wildcard d).1 m;
          reach = (wildcard_line_blocks d c name).0 (rw e at h);
        }))

    AllIsLine : All IsLine (to_sorted_vec bl)
    AllIsLine = All-of_In (to_sorted_vec bl) (λ l m. Saved-IsLine bl l (sorted-Saved bl saved l m))

    reload_blocks : is_blocked (from_text (to_file_text bl)) name ≡ true → is_blocked bl name ≡ true
    unfolding to_file_text
    reload_blocks h =
        let (l, m, b) = (is_blocked-from_text_iff (to_file_text bl) name).0 h in
        elim (In-lines-file_of (to_sorted_vec bl) l AllIsLine m) [
          | inl k ↦ blocked_by_entry l (sorted-Saved bl saved l k) b
          | inr blank ↦ absurd (load_line-blank name (rw blank at b))
        ]

    line_of_entry :
        (l : Text)
        → In l (to_sorted_vec bl)
        → is_blocked (load_line empty l) name ≡ true
        → is_blocked (from_text (to_file_text bl)) name ≡ true
    unfolding to_file_text
    line_of_entry l m b =
        (is_blocked-from_text_iff (to_file_text bl) name).1
          (l, lines-file_of-In (to_sorted_vec bl) l AllIsLine m, b)

    blocks_after_reload :
        is_blocked bl name ≡ true → is_blocked (from_text (to_file_text bl)) name ≡ true
    blocks_after_reload h = elim ((is_blocked_iff bl name).0 h) [
      | inl c ↦
          let m = (contains_iff bl.exact c.domain).0 c.listed in
          let (canonical, plain) = All-In (λ d. IsCanonical d × IsPlain d) bl.exact saved.exact m in
          line_of_entry c.domain ((In-to_sorted_vec_iff bl c.domain).1 (inl m))
            ((plain_line_blocks c.domain canonical name plain).1 c.reach)
      | inr c ↦
          let m = (contains_iff bl.wildcard c.domain).0 c.listed in
          let canonical = All-In IsCanonical bl.wildcard saved.wildcard m in
          line_of_entry (starred c.domain)
            ((In-to_sorted_vec_iff bl (starred c.domain)).1 (inr (c.domain, m, refl)))
            ((wildcard_line_blocks c.domain canonical name).1 c.reach)
    ]

  -- A list of canonical entries, of which the plain ones begin neither with `#` nor with `*.`,
  -- blocks after it was written and read back just what it blocked before.
  pub is_blocked-from_text-to_file_text :
      (bl : Blocklist) (name : Text)
      → IsSaved bl
      → is_blocked (from_text (to_file_text bl)) name ≡ is_blocked bl name
  is_blocked-from_text-to_file_text bl name saved =
      Bool-eq_iff _ _ (reload_blocks bl saved name, blocks_after_reload bl saved name)
