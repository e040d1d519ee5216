-- ===== src/Text/Order.antt =====
-- `sort` orders texts, and keeps each as often as it stood there.
use mathlib.Core.List.{Perm}
use mathlib.Core.List.Perm
use rust_dns.Base.{
  suc, ◌≡◌, refl, true, false, List, [], ◌∷◌, arith, All, Bool-cases, inl, inr, length, In, here,
  there, In-cons, ◌↔◌,
}
use rust_dns.Text.{Text, le_text, insert_sorted, sort}

pub le_text_total : (s t : Text) → le_text s t ≡ false → le_text t s ≡ true
unfolding le_text
le_text_total [] t h = cc
le_text_total (x ∷ xs) [] h = refl
le_text_total (x ∷ xs) (y ∷ ys) h = ground (arith, le_text_total xs ys)

pub le_text_trans : (s t u : Text) → le_text s t ≡ true → le_text t u ≡ true → le_text s u ≡ true
unfolding le_text
le_text_trans [] t u h k = refl
le_text_trans (x ∷ xs) [] u h k = cc
le_text_trans (x ∷ xs) (y ∷ ys) [] h k = cc
le_text_trans (x ∷ xs) (y ∷ ys) (z ∷ zs) h k = ground (arith, le_text_trans xs ys zs)

pub le_text_antisymm : (s t : Text) → le_text s t ≡ true → le_text t s ≡ true → s ≡ t
unfolding le_text
le_text_antisymm [] [] h k = refl
le_text_antisymm [] (y ∷ ys) h k = cc
le_text_antisymm (x ∷ xs) [] h k = cc
le_text_antisymm (x ∷ xs) (y ∷ ys) h k = ground (arith, le_text_antisymm xs ys)

abbrev pub Below : Text → List Text → Type 0
Below s ts = All (λ t. le_text s t ≡ true) ts

abbrev pub IsSorted : List Text → Type 0
IsSorted [] = Unit
IsSorted (s ∷ ss) = Below s ss × IsSorted ss

Below-trans : (s t : Text) (ss : List Text) → le_text s t ≡ true → Below t ss → Below s ss
Below-trans s t [] h b = tt
Below-trans s t (u ∷ ss) h (b, bs) = (le_text_trans s t u h b, Below-trans s t ss h bs)

Below-insert_sorted :
    (a s : Text) (ss : List Text) → le_text a s ≡ true → Below a ss → Below a (insert_sorted s ss)
unfolding insert_sorted
Below-insert_sorted a s [] h b = (h, tt)
Below-insert_sorted a s (t ∷ ts) h (b, bs) = elim (Bool-cases (le_text s t)) [
  | inl e ↦ rw e (h, (b, bs))
  | inr e ↦ rw e (b, Below-insert_sorted a s ts h bs)
]

insert_sorted-IsSorted : (s : Text) (ss : List Text) → IsSorted ss → IsSorted (insert_sorted s ss)
unfolding insert_sorted
insert_sorted-IsSorted s [] h = (tt, tt)
insert_sorted-IsSorted s (t ∷ ts) (b, h) = elim (Bool-cases (le_text s t)) [
  | inl e ↦ rw e ((e, Below-trans s t ts e b), (b, h))
  | inr e ↦ rw e (Below-insert_sorted t s ts (le_text_total s t e) b, insert_sorted-IsSorted s ts h)
]

pub sort-IsSorted : (ss : List Text) → IsSorted (sort ss)
unfolding sort
sort-IsSorted [] = tt
sort-IsSorted (s ∷ ss) = insert_sorted-IsSorted s (sort ss) (sort-IsSorted ss)

insert_sorted-perm : (s : Text) (ss : List Text) → Perm (insert_sorted s ss) (s ∷ ss)
unfolding insert_sorted
insert_sorted-perm s [] = Perm.refl (s ∷ [])
insert_sorted-perm s (t ∷ ts) = elim (Bool-cases (le_text s t)) [
  | inl e ↦ rw e (Perm.refl (s ∷ t ∷ ts))
  | inr e ↦ rw e (Perm.trans (Perm.cons t (insert_sorted-perm s ts)) (Perm.swap s t ts))
]

pub sort-perm : (ss : List Text) → Perm (sort ss) ss
unfolding sort
sort-perm [] = Perm.refl []
sort-perm (s ∷ ss) = Perm.trans (insert_sorted-perm s (sort ss)) (Perm.cons s (sort-perm ss))

length-insert_sorted : (s : Text) (ts : List Text) → length (insert_sorted s ts) ≡ suc (length ts)
unfolding insert_sorted
length-insert_sorted s [] = refl
length-insert_sorted s (t ∷ ts) = ground (arith, length-insert_sorted s ts)

pub length-sort : (ss : List Text) → length (sort ss) ≡ length ss
unfolding sort
length-sort [] = refl
length-sort (s ∷ ss) = omega (arith, length-insert_sorted s (sort ss), length-sort ss)

-- Two lists with the same members, each behind another first element.
In-behind :
    {a s t : Text} (us ts : List Text) → In a us ↔ In a (s ∷ ts) → In a (t ∷ us) ↔ In a (s ∷ t ∷ ts)
In-behind {a} {s} {t} us ts ih = (forth, back)
  where
    forth : In a (t ∷ us) → In a (s ∷ t ∷ ts)
    forth (here e) = there (here e)
    forth (there m) = elim (In-cons (ih.0 m)) [ inl e ↦ here e | inr k ↦ there (there k) ]

    back : In a (s ∷ t ∷ ts) → In a (t ∷ us)
    back (here e) = there (ih.1 (here e))
    back (there (here e)) = here e
    back (there (there m)) = there (ih.1 (there m))

In-insert_sorted_iff : (a s : Text) (ts : List Text) → In a (insert_sorted s ts) ↔ In a (s ∷ ts)
unfolding insert_sorted
In-insert_sorted_iff a s [] = (λ m. m, λ m. m)
In-insert_sorted_iff a s (t ∷ ts) = elim (Bool-cases (le_text s t)) [
  | inl e ↦ rw e (λ m. m, λ m. m)
  | inr e ↦ rw e (In-behind (insert_sorted s ts) ts (In-insert_sorted_iff a s ts))
]

-- `sort` keeps what stands in the list.
pub In-sort_iff : (a : Text) (ss : List Text) → In a (sort ss) ↔ In a ss
unfolding sort
In-sort_iff a [] = (λ m. m, λ m. m)
In-sort_iff a (s ∷ ss) = (
  λ m. elim (In-cons ((In-insert_sorted_iff a s (sort ss)).0 m)) [
    | inl e ↦ here e
    | inr k ↦ there ((In-sort_iff a ss).0 k)
  ],
  λ m.
      (In-insert_sorted_iff a s (sort ss)).1
        (elim (In-cons m) [ inl e ↦ here e | inr k ↦ there ((In-sort_iff a ss).1 k) ]),
)
