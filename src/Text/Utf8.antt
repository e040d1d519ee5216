-- ===== src/Text/Utf8.antt =====
-- UTF-8: `as_bytes` and `String::from_utf8`.
use mathlib.Core.Option
use rust_dns.Base.{
  ℕ, zero, suc, ◌+◌, ◌-◌, ◌*◌, ◌/◌, ◌%◌, ◌<◌, ◌≡◌, ◌⊎◌, Bool, ◌&&◌, ◌||◌, Option, none, some, [],
  ◌∷◌, ◌++◌, length, arith, ltb, leb, if◌then◌else◌, ◌≤◌, All, length-append, ◌∙◌, ap, Option-cases,
  refl, inl, inr,
}
use rust_dns.Text.{Text}
use rust_dns.Bytes.{Bytes}

-- A Unicode scalar value: not a surrogate, and within the range.
abbrev pub IsScalar : ℕ → Type 0
IsScalar c = (c < 0xd800) ⊎ ((0xdfff < c) × (c < 0x110000))

unfoldable pub encode_char : ℕ → Bytes
encode_char c =
    if ltb c 0x80
    then c ∷ []
    else if ltb c 0x800
    then (0xc0 + c / 64) ∷ (0x80 + c % 64) ∷ []
    else if ltb c 0x10000
    then (0xe0 + c / 4096) ∷ (0x80 + c / 64 % 64) ∷ (0x80 + c % 64) ∷ []
    else (0xf0 + c / 262144) ∷ (0x80 + c / 4096 % 64) ∷ (0x80 + c / 64 % 64) ∷ (0x80 + c % 64) ∷ []

unfoldable pub as_bytes : Text → Bytes
unfolding encode_char
as_bytes [] = []
as_bytes (c ∷ s) = encode_char c ++ as_bytes s

abbrev pub continues : ℕ → Bool
continues b = leb 0x80 b && ltb b 0xc0

unfoldable pub decode_two : ℕ → Bytes → Option (ℕ × Bytes)
decode_two a (b ∷ rest) = if continues b then some ((a - 0xc0) * 64 + (b - 0x80), rest) else none
decode_two a _ = none

-- Overlong forms and surrogates are refused.
unfoldable pub decode_three : ℕ → Bytes → Option (ℕ × Bytes)
decode_three a (b ∷ c ∷ rest) =
    let v = (a - 0xe0) * 4096 + (b - 0x80) * 64 + (c - 0x80) in
    if continues b && continues c && leb 0x800 v && (ltb v 0xd800 || ltb 0xdfff v)
    then some (v, rest)
    else none
decode_three a _ = none

unfoldable pub decode_four : ℕ → Bytes → Option (ℕ × Bytes)
decode_four a (b ∷ c ∷ d ∷ rest) =
    let v = (a - 0xf0) * 262144 + (b - 0x80) * 4096 + (c - 0x80) * 64 + (d - 0x80) in
    if continues b && continues c && continues d && leb 0x10000 v && ltb v 0x110000
    then some (v, rest)
    else none
decode_four a _ = none

-- The first character and what follows it; `none` if no well-formed sequence stands there.
unfoldable pub decode_char : Bytes → Option (ℕ × Bytes)
decode_char [] = none
decode_char (a ∷ rest) =
    if ltb a 0x80
    then some (a, rest)
    else if ltb a 0xc2
    then none
    else if ltb a 0xe0
    then decode_two a rest
    else if ltb a 0xf0
    then decode_three a rest
    else if ltb a 0xf5
    then decode_four a rest
    else none

-- Each round takes a byte at least, so that as many rounds as there are bytes are enough.
unfoldable pub from_utf8_loop : ℕ → Bytes → Option Text
unfolding decode_char
from_utf8_loop fuel [] = some []
from_utf8_loop zero (b ∷ bs) = none
from_utf8_loop (suc fuel) (b ∷ bs) = elim (decode_char (b ∷ bs)) [
  | none ↦ none
  | some (c, rest) ↦ Option.map (λ s. c ∷ s) (from_utf8_loop fuel rest)
]

unfoldable pub from_utf8 : Bytes → Option Text
unfolding from_utf8_loop decode_two decode_three decode_four
from_utf8 bs = from_utf8_loop (length bs) bs

pub decode_char-encode_char :
    (c : ℕ) (rest : Bytes) → IsScalar c → decode_char (encode_char c ++ rest) ≡ some (c, rest)
unfolding decode_char decode_two decode_three decode_four encode_char
decode_char-encode_char c rest h = ground arith

length-encode_char : (c : ℕ) → 1 ≤ length (encode_char c)
unfolding encode_char
length-encode_char c = ground arith

from_utf8_loop_step :
    (fuel : ℕ) (bs : Bytes) (c : ℕ) (rest : Bytes)
    → decode_char bs ≡ some (c, rest)
    → from_utf8_loop (suc fuel) bs ≡ Option.map (λ s. c ∷ s) (from_utf8_loop fuel rest)
unfolding from_utf8_loop
from_utf8_loop_step fuel [] c rest h = cc
from_utf8_loop_step fuel (b ∷ bs) c rest h = ground (arith, h)

from_utf8_loop-as_bytes :
    (fuel : ℕ) (s : Text)
    → All IsScalar s
    → length (as_bytes s) ≤ fuel
    → from_utf8_loop fuel (as_bytes s) ≡ some s
unfolding as_bytes
from_utf8_loop-as_bytes zero [] h le = unfold from_utf8_loop in refl
from_utf8_loop-as_bytes (suc fuel) [] h le = unfold from_utf8_loop in refl
from_utf8_loop-as_bytes zero (c ∷ s) (hc, hs) le =
    absurd (omega (arith, length-encode_char c, length-append (encode_char c) (as_bytes s)))
from_utf8_loop-as_bytes (suc fuel) (c ∷ s) (hc, hs) le =
    from_utf8_loop_step fuel (encode_char c ++ as_bytes s) c (as_bytes s)
      (decode_char-encode_char c (as_bytes s) hc)
    ∙ ap (Option.map (λ t. c ∷ t)) (
        from_utf8_loop-as_bytes fuel s hs
          (omega (arith, length-encode_char c, length-append (encode_char c) (as_bytes s))))

-- The bytes of a text are read back as that text.
pub from_utf8-as_bytes : (s : Text) → All IsScalar s → from_utf8 (as_bytes s) ≡ some s
unfolding from_utf8
from_utf8-as_bytes s h = from_utf8_loop-as_bytes (length (as_bytes s)) s h (omega arith)

encode_two :
    (a : ℕ) (bs : Bytes) (c : ℕ) (rest : Bytes)
    → 0xc2 ≤ a
    → a < 0xe0
    → decode_two a bs ≡ some (c, rest)
    → (a ∷ bs ≡ encode_char c ++ rest) × IsScalar c
unfolding decode_two encode_char
encode_two a [] c rest lo hi h = cc
encode_two a (b ∷ bs) c rest lo hi h = ground arith

encode_three :
    (a : ℕ) (bs : Bytes) (c : ℕ) (rest : Bytes)
    → 0xe0 ≤ a
    → a < 0xf0
    → decode_three a bs ≡ some (c, rest)
    → (a ∷ bs ≡ encode_char c ++ rest) × IsScalar c
unfolding decode_three encode_char
encode_three a [] c rest lo hi h = cc
encode_three a (b ∷ []) c rest lo hi h = cc
encode_three a (b ∷ d ∷ bs) c rest lo hi h = ground arith

encode_four :
    (a : ℕ) (bs : Bytes) (c : ℕ) (rest : Bytes)
    → 0xf0 ≤ a
    → a < 0xf5
    → decode_four a bs ≡ some (c, rest)
    → (a ∷ bs ≡ encode_char c ++ rest) × IsScalar c
unfolding decode_four encode_char
encode_four a [] c rest lo hi h = cc
encode_four a (b ∷ []) c rest lo hi h = cc
encode_four a (b ∷ d ∷ []) c rest lo hi h = cc
encode_four a (b ∷ d ∷ e ∷ bs) c rest lo hi h = ground arith

encode_one : (a : ℕ) (bs : Bytes) → a < 0x80 → (a ∷ bs ≡ encode_char a ++ bs) × IsScalar a
unfolding encode_char
encode_one a bs h = ground arith

-- What was decoded is a scalar value, and encodes to just the bytes that were read.
pub encode_char-decode_char :
    (bs : Bytes) (c : ℕ) (rest : Bytes)
    → decode_char bs ≡ some (c, rest)
    → (bs ≡ encode_char c ++ rest) × IsScalar c
unfolding decode_char
encode_char-decode_char [] c rest h = cc
encode_char-decode_char (a ∷ bs) c rest h = ground (
  arith,
  encode_one a bs,
  encode_two a bs c rest,
  encode_three a bs c rest,
  encode_four a bs c rest,
)

as_bytes-from_utf8_loop :
    (fuel : ℕ) (bs : Bytes) (s : Text)
    → from_utf8_loop fuel bs ≡ some s
    → (as_bytes s ≡ bs) × All IsScalar s
unfolding from_utf8_loop as_bytes
as_bytes-from_utf8_loop fuel [] s h = ground arith
as_bytes-from_utf8_loop zero (b ∷ bs) s h = cc
as_bytes-from_utf8_loop (suc fuel) (b ∷ bs) s h = elim (Option-cases (decode_char (b ∷ bs))) [
  | inl e ↦ absurd (ground arith)
  | inr ((c, rest), e) ↦ elim (Option-cases (from_utf8_loop fuel rest)) [
    | inl f ↦ absurd (ground arith)
    | inr (t, f) ↦
        let (whole, scalar) = encode_char-decode_char (b ∷ bs) c rest e in
        let (ih, scalars) = as_bytes-from_utf8_loop fuel rest t f in
        let st : s ≡ c ∷ t = ground arith in rw st (ground (arith, whole, ih), (scalar, scalars))
  ]
]

-- A text that was read from bytes has just these bytes.
pub as_bytes-from_utf8 :
    (bs : Bytes) (s : Text) → from_utf8 bs ≡ some s → (as_bytes s ≡ bs) × All IsScalar s
unfolding from_utf8
as_bytes-from_utf8 bs s h = as_bytes-from_utf8_loop (length bs) bs s h
