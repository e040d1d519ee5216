-- ===== src/Text.antt =====
-- The operations of `str` and `String` that the sources call. A text is the list of its Unicode
-- scalar values; an index counts characters where Rust counts bytes, and stands at the same place.
pub mod Search
pub mod Trim
pub mod Lines
pub mod Order
pub mod Unicode
pub mod Utf8
use Prim.Native.Char.{code}
use Prim.Native.String.{String}
use rust_dns.Base.{
  ℕ, zero, suc, ◌≡◌, ◌↔◌, Bool, true, false, ◌&&◌, ◌||◌, Option, none, some, List, [], ◌∷◌, ◌++◌,
  take, drop, is_empty, arith, ◌==◌, ltb, leb, if◌then◌else◌,
}
use mathlib.Core.Option

abbrev pub Text : Type 0
Text = List ℕ

-- A literal of the source.
abbrev pub text : String → Text
text String.[] = []
text (String.◌∷◌ c s) = code c ∷ text s

-- `==` on texts.
unfoldable pub equal : Text → Text → Bool
equal [] [] = true
equal (x ∷ xs) (y ∷ ys) = x == y && equal xs ys
equal [] (y ∷ ys) = false
equal (x ∷ xs) [] = false

pub equal_iff : (s t : Text) → (equal s t ≡ true) ↔ (s ≡ t)
unfolding equal
equal_iff (x ∷ xs) (y ∷ ys) = ground (arith, equal_iff xs ys)
equal_iff _ _ = ground arith

pub equal_refl : (s : Text) → equal s s ≡ true
equal_refl s = (equal_iff s s).1 (λ i. s)

-- `find` of a character.
unfoldable pub find : ℕ → Text → Option ℕ
find c [] = none
find c (x ∷ xs) = if x == c then some 0 else Option.map suc (find c xs)

unfoldable pub starts_with : Text → Text → Bool
starts_with [] s = true
starts_with (p ∷ ps) [] = false
starts_with (p ∷ ps) (x ∷ xs) = p == x && starts_with ps xs

-- The text behind the prefix, if it is there.
unfoldable pub strip_prefix : Text → Text → Option Text
strip_prefix [] s = some s
strip_prefix (p ∷ ps) [] = none
strip_prefix (p ∷ ps) (x ∷ xs) = if p == x then strip_prefix ps xs else none

-- `find` of a text that is not empty.
unfoldable pub find_str : Text → Text → Option ℕ
unfolding starts_with
find_str p [] = none
find_str p (x ∷ xs) = if starts_with p (x ∷ xs) then some 0 else Option.map suc (find_str p xs)

-- `char::is_whitespace`: the characters with the property White_Space.
unfoldable pub is_whitespace : ℕ → Bool
is_whitespace c =
    (leb 9 c && leb c 13)
    || c == 0x20
    || c == 0x85
    || c == 0xa0
    || c == 0x1680
    || (leb 0x2000 c && leb c 0x200a)
    || c == 0x2028
    || c == 0x2029
    || c == 0x202f
    || c == 0x205f
    || c == 0x3000

-- `trim_start_matches` and `trim_end_matches` with a test of one character.
unfoldable pub trim_start_by : (ℕ → Bool) → Text → Text
trim_start_by p [] = []
trim_start_by p (x ∷ xs) = if p x then trim_start_by p xs else x ∷ xs

-- A character goes if it passes the test and nothing is left behind it.
abbrev pub keep_before : Bool → ℕ → Text → Text
keep_before b x (y ∷ ys) = x ∷ y ∷ ys
keep_before true x [] = []
keep_before false x [] = x ∷ []

unfoldable pub trim_end_by : (ℕ → Bool) → Text → Text
trim_end_by p [] = []
trim_end_by p (x ∷ xs) = keep_before (p x) x (trim_end_by p xs)

unfoldable pub trim : Text → Text
unfolding trim_start_by trim_end_by is_whitespace
trim s = trim_end_by is_whitespace (trim_start_by is_whitespace s)

unfoldable pub trim_end_matches : ℕ → Text → Text
unfolding trim_end_by
trim_end_matches c s = trim_end_by (λ x. x == c) s

-- `strip_suffix` of one character.
unfoldable pub strip_last : ℕ → Text → Text
strip_last c [] = []
strip_last c (x ∷ []) = if x == c then [] else x ∷ []
strip_last c (x ∷ y ∷ ys) = x ∷ strip_last c (y ∷ ys)

-- `lines`: `line` is what has been read of the current one. A line loses its `\n` and a `\r` before
-- that; the last one, if no `\n` ends it, keeps its `\r`, and is left out if it is empty.
unfoldable pub lines_from : Text → Text → List Text
unfolding strip_last
lines_from line [] = if is_empty line then [] else line ∷ []
lines_from line (x ∷ xs) = elim (x == b'\n') [
  | true ↦ strip_last b'\r' line ∷ lines_from [] xs
  | false ↦ lines_from (line ++ x ∷ []) xs
]

unfoldable pub lines : Text → List Text
unfolding lines_from
lines s = lines_from [] s

unfoldable pub join : Text → List Text → Text
join sep [] = []
join sep (s ∷ []) = s
join sep (s ∷ t ∷ ts) = s ++ (sep ++ join sep (t ∷ ts))

-- `Ord` of `str`: UTF-8 keeps the order of the scalar values.
unfoldable pub le_text : Text → Text → Bool
le_text [] t = true
le_text (x ∷ xs) [] = false
le_text (x ∷ xs) (y ∷ ys) = if x == y then le_text xs ys else ltb x y

unfoldable pub insert_sorted : Text → List Text → List Text
unfolding le_text
insert_sorted s [] = s ∷ []
insert_sorted s (t ∷ ts) = if le_text s t then s ∷ t ∷ ts else t ∷ insert_sorted s ts

-- `sort`, by insertion: the order is total, so that the result does not depend on the method.
unfoldable pub sort : List Text → List Text
unfolding insert_sorted
sort [] = []
sort (s ∷ ss) = insert_sorted s (sort ss)
