-- ===== src/Qlog/Name.antt =====
-- src/qlog.rs: the names of segments, and their order.
use rust_dns.Base.{
  ℕ, zero, suc, ◌+◌, ◌/◌, ◌%◌, ◌^◌, ◌≡◌, ◌≤◌, ◌<◌, inl, inr, refl, sym, ap, ◌∙◌, [], ◌∷◌, ◌++◌,
  length, arith, Bool-cases, if◌then◌else◌, ◌==◌, ltb, leb, ◌&&◌, append-nil, append_assoc, not,
  ◌||◌, ◌-◌, length-append,
}
use native.Mathlib.Nat.{pow-le-pow_right}
use rust_dns.Text.{Text, text, le_text}

abbrev pub digit : ℕ → ℕ
digit n = 48 + n % 10

-- `{}` of a number, on as much fuel as it has digits at most.
unfoldable pub digits : ℕ → ℕ → Text
digits zero n = []
digits (suc fuel) n =
    let more = digits fuel (n / 10) in if ltb n 10 then digit n ∷ [] else more ++ (digit n ∷ [])

-- A number of at most 64 bits has at most 20 digits.
unfoldable pub decimal : ℕ → Text
decimal n = digits 20 n

abbrev pub zeros : ℕ → Text
zeros zero = []
zeros (suc n) = b'0' ∷ zeros n

-- `{:0w}`: zeros are put in front, up to the width.
unfoldable pub padded : ℕ → ℕ → Text
padded w n = zeros (w - length (decimal n)) ++ decimal n

-- `format!("qlog-{:014}-{:06}.parquet", now_ms(), seq)`.
unfoldable pub segment_name : ℕ → ℕ → Text
segment_name now_ms seq =
    text "qlog-" ++ (padded 14 now_ms ++ (text "-" ++ (padded 6 seq ++ text ".parquet")))

-- The last `w` digits.
abbrev last_digits : ℕ → ℕ → Text
last_digits zero n = []
last_digits (suc w) n = last_digits w (n / 10) ++ (digit n ∷ [])

length-last_digits : (w n : ℕ) → length (last_digits w n) ≡ w
length-last_digits zero n = refl
length-last_digits (suc w) n =
    omega
      (arith, length-append (last_digits w (n / 10)) (digit n ∷ []), length-last_digits w (n / 10))

zeros_more : (k : ℕ) → zeros (suc k) ≡ zeros k ++ (b'0' ∷ [])
zeros_more zero = refl
zeros_more (suc k) = ap (λ s. b'0' ∷ s) (zeros_more k)

last_digits_zero : (w : ℕ) → last_digits w 0 ≡ zeros w
last_digits_zero zero = refl
last_digits_zero (suc w) = ap (λ s. s ++ (b'0' ∷ [])) (last_digits_zero w) ∙ sym (zeros_more w)

two_digits : (w n : ℕ) → 10 ≤ n → n < 10 ^ suc w → 1 ≤ w
two_digits zero n many fits = absurd (omega (arith, many, fits))
two_digits (suc w) n many fits = omega arith

-- Zeros in front make up the last `w` digits of a number that has no more.
digits_padded :
    (fuel w n : ℕ)
    → n < 10 ^ fuel
    → n < 10 ^ w
    → 1 ≤ w
    → zeros (w - length (digits fuel n)) ++ digits fuel n ≡ last_digits w n
unfolding digits
digits_padded zero w n small fits pos =
    let nothing : n ≡ 0 = omega (arith, small) in
    let same : w - 0 ≡ w = omega arith in
    rw (nothing, same) (append-nil (zeros w) ∙ sym (last_digits_zero w))
digits_padded (suc fuel) zero n small fits pos = absurd (omega (arith, pos))
digits_padded (suc fuel) (suc w) n small fits pos = elim (Bool-cases (ltb n 10)) [
  | inl one ↦
      let rest : n / 10 ≡ 0 = ground (arith, one) in
      let last : suc w - 1 ≡ w = omega arith in
      rw (one, rest, last) (ap (λ s. s ++ (digit n ∷ [])) (sym (last_digits_zero w)))
  | inr more ↦
      let n10 : 10 ≤ n = ground (arith, more) in
      let fewer : n / 10 < 10 ^ w = omega (arith, fits) in
      let fewer_fuel : n / 10 < 10 ^ fuel = omega (arith, small) in
      let front = digits_padded fuel w (n / 10) fewer_fuel fewer (two_digits w n n10 fits) in
      let len = length-append (digits fuel (n / 10)) (digit n ∷ []) in
      let gap : suc w - length (digits fuel (n / 10) ++ (digit n ∷ []))
          ≡ w - length (digits fuel (n / 10)) =
        omega (arith, len) in
      rw (more, gap)
        (sym (
            append_assoc (zeros (w - length (digits fuel (n / 10)))) (digits fuel (n / 10))
              (digit n ∷ []))
          ∙ ap (λ s. s ++ (digit n ∷ [])) front)
]

grows : (w fuel n : ℕ) → w ≤ fuel → n < 10 ^ w → n < 10 ^ fuel
grows w fuel n few fits =
    let bound : 10 ^ w ≤ 10 ^ fuel = pow-le-pow_right (omega arith) few in
    omega (arith, fits, bound)

pub padded_lem : (w n : ℕ) → 1 ≤ w → w ≤ 20 → n < 10 ^ w → padded w n ≡ last_digits w n
unfolding padded decimal
padded_lem w n pos few fits = digits_padded 20 w n (grows w 20 n few fits) fits pos

-- Texts of one length in front decide, unless they are equal.
le_text-append :
    (a b x y : Text)
    → length a ≡ length b
    → le_text (a ++ x) (b ++ y) ≡ (le_text a b && (not (le_text b a) || le_text x y))
unfolding le_text
le_text-append [] [] x y e = refl
le_text-append [] (d ∷ b) x y e = absurd (omega (arith, e))
le_text-append (c ∷ a) [] x y e = absurd (omega (arith, e))
le_text-append (c ∷ a) (d ∷ b) x y e = ground (arith, le_text-append a b x y (omega (arith, e)))

-- The order of the last digits is that of the numbers.
le_text-last_digits :
    (w n k : ℕ) → n < 10 ^ w → k < 10 ^ w → le_text (last_digits w n) (last_digits w k) ≡ leb n k
unfolding le_text
le_text-last_digits zero n k hn hk = ground (arith, hn, hk)
le_text-last_digits (suc w) n k hn hk =
    let same = length-last_digits w (n / 10) ∙ sym (length-last_digits w (k / 10)) in
    let front =
      le_text-append (last_digits w (n / 10)) (last_digits w (k / 10)) (digit n ∷ []) (digit k ∷ [])
        same in
    let up = le_text-last_digits w (n / 10) (k / 10) (omega (arith, hn)) (omega (arith, hk)) in
    let down = le_text-last_digits w (k / 10) (n / 10) (omega (arith, hk)) (omega (arith, hn)) in
    front ∙ rw (up, down) (ground arith)

-- Padded numbers come first in the order, and what follows decides between equal ones.
le_text-padded :
    (w n k : ℕ) (x y : Text)
    → 1 ≤ w
    → w ≤ 20
    → n < 10 ^ w
    → k < 10 ^ w
    → le_text (padded w n ++ x) (padded w k ++ y) ≡ (if n == k then le_text x y else ltb n k)
le_text-padded w n k x y pos few hn hk =
    let same = length-last_digits w n ∙ sym (length-last_digits w k) in
    let front = le_text-append (last_digits w n) (last_digits w k) x y same in
    let up = le_text-last_digits w n k hn hk in
    let down = le_text-last_digits w k n hk hn in
    rw (padded_lem w n pos few hn, padded_lem w k pos few hk) (front ∙ rw (up, down) (ground arith))

le_prefix : (p x y : Text) → le_text (p ++ x) (p ++ y) ≡ le_text x y
unfolding le_text
le_prefix [] x y = refl
le_prefix (c ∷ p) x y = ground (arith, le_prefix p x y)

-- For times below 10^14 milliseconds and fewer than 10^6 segments, the order of the names is that of
-- the times, and of the sequence numbers within one millisecond.
pub le_text-segment_name :
    (t s t' s' : ℕ)
    → t < 10 ^ 14
    → t' < 10 ^ 14
    → s < 10 ^ 6
    → s' < 10 ^ 6
    → le_text (segment_name t s) (segment_name t' s') ≡ (if t == t' then leb s s' else ltb t t')
unfolding segment_name
le_text-segment_name t s t' s' ht ht' hs hs' =
    let times =
      le_text-padded 14 t t' (text "-" ++ (padded 6 s ++ text ".parquet"))
        (text "-" ++ (padded 6 s' ++ text ".parquet")) (omega arith) (omega arith) ht ht' in
    let seqs =
      le_text-padded 6 s s' (text ".parquet") (text ".parquet") (omega arith) (omega arith) hs
        hs' in
    le_prefix (text "qlog-") _ _
    ∙ times
    ∙ rw
        (
          le_prefix (text "-") (padded 6 s ++ text ".parquet") (padded 6 s' ++ text ".parquet"),
          seqs,
          le_prefix (text ".parquet") [] [],
        )
        (unfold le_text in ground arith)
