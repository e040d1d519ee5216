-- ===== src/Text/Lines.antt =====
-- `lines` takes apart what `join` with a `\n` behind it put together.
use rust_dns.Base.{
  ℕ, ◌≡◌, refl, ap, ◌∙◌, ◌≢◌, List, [], ◌∷◌, ◌++◌, arith, All, All-append, Bool-cases, inl, inr,
  ◌==◌, append-nil, append_assoc,
}
use rust_dns.Text.{Text, lines_from, lines, strip_last, join}
use rust_dns.Text.Search.{Free}
use rust_dns.Text.Trim.{EndsClean}

-- Each line with its `\n`.
abbrev pub unlines : List Text → Text
unlines [] = []
unlines (s ∷ ss) = s ++ (b'\n' ∷ unlines ss)

pub join-unlines :
    (s : Text) (ss : List Text) → join (b'\n' ∷ []) (s ∷ ss) ++ (b'\n' ∷ []) ≡ unlines (s ∷ ss)
unfolding join
join-unlines s [] = refl
join-unlines s (t ∷ ts) =
    append_assoc s (b'\n' ∷ join (b'\n' ∷ []) (t ∷ ts)) (b'\n' ∷ [])
    ∙ ap (λ r. s ++ (b'\n' ∷ r)) (join-unlines t ts)

-- A line as `lines` gives it: no `\n` in it, and no `\r` at its end.
abbrev pub IsLine : Text → Type 0
IsLine s = Free b'\n' s × EndsClean (λ x. x == b'\r') s

strip_last-clean : (c : ℕ) (s : Text) → EndsClean (λ x. x == c) s → strip_last c s ≡ s
unfolding strip_last
strip_last-clean c [] h = refl
strip_last-clean c (x ∷ []) h = ground arith
strip_last-clean c (x ∷ y ∷ ys) h = rw (strip_last-clean c (y ∷ ys) h)

lines_from-line :
    (line s rest : Text)
    → Free b'\n' s
    → lines_from line (s ++ (b'\n' ∷ rest)) ≡ strip_last b'\r' (line ++ s) ∷ lines_from [] rest
unfolding lines_from
lines_from-line line [] rest h = rw append-nil refl
lines_from-line line (x ∷ s) rest (n, h) =
    ground (arith, lines_from-line (line ++ x ∷ []) s rest h, append_assoc line (x ∷ []) s)

pub lines-unlines : (ss : List Text) → All IsLine ss → lines (unlines ss) ≡ ss
unfolding lines lines_from
lines-unlines [] h = refl
lines-unlines (s ∷ ss) ((free, clean), hs) =
    lines_from-line [] s (unlines ss) free
    ∙ rw (strip_last-clean b'\r' s clean) (ap (λ r. s ∷ r) (unfold lines in lines-unlines ss hs))

All-strip_last {κ} : (P : ℕ → Type κ) (c : ℕ) (s : Text) → All P s → All P (strip_last c s)
unfolding strip_last
All-strip_last P c [] h = tt
All-strip_last P c (x ∷ []) h = elim (Bool-cases (x == c)) [ inl e ↦ rw e tt | inr e ↦ rw e h ]
All-strip_last P c (x ∷ y ∷ ys) (h, hs) = (h, All-strip_last P c (y ∷ ys) hs)

-- No line holds a `\n`.
lines_from-Free : (line s : Text) → Free b'\n' line → All (Free b'\n') (lines_from line s)
unfolding lines_from
lines_from-Free [] [] h = tt
lines_from-Free (y ∷ line) [] h = (h, tt)
lines_from-Free line (x ∷ xs) h = ground (
  arith,
  All-strip_last (λ c. c ≢ b'\n') b'\r' line h,
  lines_from-Free [] xs tt,
  All-append (λ c. c ≢ b'\n') line (x ∷ []) h,
  lines_from-Free (line ++ x ∷ []) xs,
)

pub lines-Free : (s : Text) → All (Free b'\n') (lines s)
unfolding lines
lines-Free s = lines_from-Free [] s tt
