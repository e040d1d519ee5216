-- ===== src/Blocklist/WellFormed.antt =====
-- What every list that `from_text` builds satisfies.
use rust_dns.Base.{
  ◌≡◌, ◌≢◌, false, inl, inr, List, [], ◌∷◌, is_empty, All, ◌||◌, Bool-cases, Option-cases, length,
  map, arith, refl, ◌++◌, length-append,
}
use rust_dns.Text.{Text, text, trim, starts_with, strip_prefix}
use rust_dns.Text.Order.{IsSorted, sort-IsSorted, sort-perm, length-sort}
use mathlib.Core.List.{Perm}
use rust_dns.Text.Unicode.{Unicode}
use rust_dns.Blocklist.{
  Blocklist, contains, insert, normalize, load_line, load_lines, from_text, to_sorted_vec, empty,
  len, lines, starred,
}
use rust_dns.Blocklist.Normal.{IsNormal, normalize-IsNormal}

abbrev pub Distinct : List Text → Type 0
Distinct [] = Unit
Distinct (d ∷ ds) = (contains ds d ≡ false) × Distinct ds

insert-Distinct : (d : Text) (set : List Text) → Distinct set → Distinct (insert d set)
unfolding insert
insert-Distinct d set h = elim (Bool-cases (contains set d)) [
  | inl old ↦ rw old h
  | inr new ↦ rw new (new, h)
]

insert-All {κ} :
    (P : Text → Type κ) (d : Text) (set : List Text) → P d → All P set → All P (insert d set)
unfolding insert
insert-All P d set p h = elim (Bool-cases (contains set d)) [
  | inl old ↦ rw old h
  | inr new ↦ rw new (p, h)
]

not_empty_of : (d : Text) → is_empty d ≡ false → d ≢ []
not_empty_of [] h = λ e. cc
not_empty_of (x ∷ d) h = λ e. cc

module _ ⦃u : Unicode⦄ where
  abbrev pub IsEntry : Text → Type 0
  IsEntry d = IsNormal d × (d ≢ [])

  pub record IsWellFormed (bl : Blocklist) : Type 0 where
    pub exact_distinct : Distinct bl.exact
    pub exact_entries : All IsEntry bl.exact
    pub wildcard_distinct : Distinct bl.wildcard
    pub wildcard_entries : All IsEntry bl.wildcard

  insert_exact :
      (bl : Blocklist) (raw : Text)
      → is_empty (normalize raw) ≡ false
      → IsWellFormed bl
      → IsWellFormed (record bl { exact = insert (normalize raw) bl.exact })
  insert_exact bl raw n w = record {
    exact_distinct = insert-Distinct (normalize raw) bl.exact w.exact_distinct;
    exact_entries =
        insert-All IsEntry (normalize raw) bl.exact
          (normalize-IsNormal raw, not_empty_of (normalize raw) n) w.exact_entries;
    wildcard_distinct = w.wildcard_distinct;
    wildcard_entries = w.wildcard_entries;
  }

  insert_wildcard :
      (bl : Blocklist) (raw : Text)
      → is_empty (normalize raw) ≡ false
      → IsWellFormed bl
      → IsWellFormed (record bl { wildcard = insert (normalize raw) bl.wildcard })
  insert_wildcard bl raw n w = record {
    exact_distinct = w.exact_distinct;
    exact_entries = w.exact_entries;
    wildcard_distinct = insert-Distinct (normalize raw) bl.wildcard w.wildcard_distinct;
    wildcard_entries =
        insert-All IsEntry (normalize raw) bl.wildcard
          (normalize-IsNormal raw, not_empty_of (normalize raw) n) w.wildcard_entries;
  }

  pub load_line-IsWellFormed :
      (bl : Blocklist) (line : Text) → IsWellFormed bl → IsWellFormed (load_line bl line)
  unfolding load_line
  load_line-IsWellFormed bl line w =
      elim (Bool-cases (is_empty (trim line) || starts_with (text "#") (trim line))) [
        | inl skip ↦ rw (skip, load_line) w
        | inr keep ↦
            rw (keep, load_line)
              (elim (Option-cases (strip_prefix (text "*.") (trim line))) [
                | inl e ↦
                    rw (e, load_line)
                      (elim (Bool-cases (is_empty (normalize (trim line)))) [
                        | inl blank ↦ rw blank w
                        | inr some_text ↦ rw some_text (insert_exact bl (trim line) some_text w)
                      ])
                | inr (rest, e) ↦
                    rw (e, load_line)
                      (elim (Bool-cases (is_empty (normalize rest))) [
                        | inl blank ↦ rw blank w
                        | inr some_text ↦ rw some_text (insert_wildcard bl rest some_text w)
                      ])
              ])
      ]

  load_lines-IsWellFormed :
      (bl : Blocklist) (ls : List Text) → IsWellFormed bl → IsWellFormed (load_lines bl ls)
  unfolding load_lines
  load_lines-IsWellFormed bl [] w = w
  load_lines-IsWellFormed bl (l ∷ ls) w =
      load_lines-IsWellFormed (load_line bl l) ls (load_line-IsWellFormed bl l w)

  -- Whatever the text, the list that is built from it holds no entry twice, no empty entry, and of
  -- every entry only what `normalize` leaves: lower case, trimmed, with no `/` and no `:`.
  pub from_text-IsWellFormed : (s : Text) → IsWellFormed (from_text s)
  unfolding from_text
  from_text-IsWellFormed s = load_lines-IsWellFormed empty (lines s) (record {
    exact_distinct = tt;
    exact_entries = tt;
    wildcard_distinct = tt;
    wildcard_entries = tt;
  })

length-map {ℓ κ} :
    {A : Type ℓ} {B : Type κ} (f : A → B) (xs : List A) → length (map f xs) ≡ length xs
length-map f [] = refl
length-map f (x ∷ xs) = omega (arith, length-map f xs)

-- The list for display is in order, has as many lines as `len` says, and is, but for the order, the
-- plain entries and the wildcard entries with `*.` before them.
pub to_sorted_vec_lem :
    (bl : Blocklist)
    → IsSorted (to_sorted_vec bl)
      × (length (to_sorted_vec bl) ≡ len bl)
      × Perm (to_sorted_vec bl) (bl.exact ++ map starred bl.wildcard)
unfolding to_sorted_vec len
to_sorted_vec_lem bl =
    let whole : List Text = bl.exact ++ map starred bl.wildcard in
    (
      sort-IsSorted whole,
      omega (
        arith,
        length-sort whole,
        length-append bl.exact (map starred bl.wildcard),
        length-map starred bl.wildcard,
      ),
      sort-perm whole,
    )
