-- ===== src/Blocklist.antt =====
-- src/blocklist.rs: the set of blocked domains, its parser, its test and its printer. A `HashSet` is
-- a list without repetition; its order is arbitrary, and no result below depends on it.
pub mod Match
pub mod File
pub mod Load
pub mod Normal
pub mod Entry
pub mod RoundTrip
pub mod WellFormed
pub mod PastedUrl
mod Tests
use rust_dns.Base.{
  ℕ, zero, suc, ◌+◌, ◌≡◌, Bool, true, false, ◌||◌, not, Option, none, some, List, [], ◌∷◌, ◌++◌,
  map, take, drop, is_empty, length, if◌then◌else◌,
}
use rust_dns.Text.{
  Text, text, equal, find, find_str, starts_with, strip_prefix, trim, trim_end_matches, lines, join,
  sort,
}
use rust_dns.Text.Unicode.{Unicode}

pub record Blocklist : Type 0 where
  pub exact : List Text
  pub wildcard : List Text

-- `HashSet::contains` and `HashSet::insert`.
unfoldable pub contains : List Text → Text → Bool
unfolding equal
contains [] d = false
contains (e ∷ es) d = equal e d || contains es d

unfoldable pub insert : Text → List Text → List Text
unfolding contains
insert d set = if contains set d then set else d ∷ set

-- The loop of `is_blocked`: `suffix` is looked up, then what follows its first dot. A round drops
-- the dot at least, so that more rounds than the text has characters are never needed.
unfoldable pub suffix_loop : ℕ → List Text → Text → Bool
unfolding contains find
suffix_loop zero set suffix = false
suffix_loop (suc fuel) set suffix = if contains set suffix then true else elim (find b'.' suffix) [
  | none ↦ false
  | some i ↦ suffix_loop fuel set (drop (suc i) suffix)
]

abbrev pub rounds : Text → ℕ
rounds name = suc (length name)

-- The second half of `is_blocked`.
unfoldable pub blocked_by_wildcard : List Text → Text → Bool
unfolding suffix_loop find
blocked_by_wildcard set name =
    if not (is_empty set)
    then elim (find b'.' name) [
      | none ↦ false
      | some i ↦ let parent = drop (suc i) name in suffix_loop (rounds parent) set parent
    ]
    else false

unfoldable pub is_blocked : Blocklist → Text → Bool
unfolding suffix_loop blocked_by_wildcard
is_blocked bl name =
    if suffix_loop (rounds name) bl.exact name then true else blocked_by_wildcard bl.wildcard name

-- What stands before the first `c`.
unfoldable pub cut_at : ℕ → Text → Text
unfolding find
cut_at c d = elim (find c d) [ none ↦ d | some i ↦ take i d ]

unfoldable pub after_scheme : Text → Text
unfolding find_str
after_scheme d = elim (find_str (text "://") d) [ none ↦ d | some i ↦ drop (suc (suc (suc i))) d ]

abbrev pub empty : Blocklist
empty = record { exact = []; wildcard = [] }

module _ ⦃u : Unicode⦄ where
  unfoldable pub normalize : Text → Text
  normalize raw =
      trim (
        trim_end_matches b'.'
          (cut_at b':' (cut_at b'/' (after_scheme (u.to_lowercase (trim raw))))))

  -- One round of the loop of `from_text`.
  unfoldable pub load_line : Blocklist → Text → Blocklist
  unfolding normalize insert strip_prefix starts_with
  load_line bl raw =
      let line = trim raw in
      if is_empty line || starts_with (text "#") line
      then bl
      else elim (strip_prefix (text "*.") line) [
        | some rest ↦
            let d = normalize rest in
            if not (is_empty d) then record bl { wildcard = insert d bl.wildcard } else bl
        | none ↦
            let d = normalize line in
            if not (is_empty d) then record bl { exact = insert d bl.exact } else bl
      ]

  unfoldable pub load_lines : Blocklist → List Text → Blocklist
  unfolding load_line
  load_lines bl [] = bl
  load_lines bl (line ∷ rest) = load_lines (load_line bl line) rest

  unfoldable pub from_text : Text → Blocklist
  unfolding load_lines lines
  from_text s = load_lines empty (lines s)

unfoldable pub len : Blocklist → ℕ
len bl = length bl.exact + length bl.wildcard

abbrev pub starred : Text → Text
starred d = text "*." ++ d

unfoldable pub to_sorted_vec : Blocklist → List Text
unfolding sort
to_sorted_vec bl = sort (bl.exact ++ map starred bl.wildcard)

unfoldable pub to_file_text : Blocklist → Text
unfolding to_sorted_vec join
to_file_text bl = join (text "\n") (to_sorted_vec bl) ++ text "\n"
