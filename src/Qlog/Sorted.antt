-- ===== src/Qlog/Sorted.antt =====
-- `sort_by` of src/qlog.rs, in `enforce_retention`: the segments in the order of their names.
use mathlib.Core.List.{Perm}
use mathlib.Core.List.Perm
use rust_dns.Base.{ℕ, ◌+◌, ◌≡◌, refl, true, List, [], ◌∷◌, ◌++◌, arith, All, Bool-cases, inl, inr}
use rust_dns.Qlog.{File, insert_file, sort_files}
use rust_dns.Text.{le_text}
use rust_dns.Text.Order.{le_text_total, le_text_trans}

-- The sum of the sizes, without a bound.
unfoldable pub bytes : List File → ℕ
bytes [] = 0
bytes (f ∷ fs) = f.size + bytes fs

-- No name of the list comes before that of the file.
abbrev pub Precedes : File → List File → Type 0
Precedes f fs = All (λ g. le_text f.name g.name ≡ true) fs

abbrev pub IsInOrder : List File → Type 0
IsInOrder [] = Unit
IsInOrder (f ∷ fs) = Precedes f fs × IsInOrder fs

Precedes-trans :
    (f g : File) (fs : List File) → le_text f.name g.name ≡ true → Precedes g fs → Precedes f fs
Precedes-trans f g [] h b = tt
Precedes-trans f g (k ∷ fs) h (b, bs) =
    (le_text_trans f.name g.name k.name h b, Precedes-trans f g fs h bs)

Precedes-insert_file :
    (a f : File) (fs : List File)
    → le_text a.name f.name ≡ true
    → Precedes a fs
    → Precedes a (insert_file f fs)
unfolding insert_file
Precedes-insert_file a f [] h b = (h, tt)
Precedes-insert_file a f (g ∷ gs) h (b, bs) = elim (Bool-cases (le_text f.name g.name)) [
  | inl e ↦ rw e (h, (b, bs))
  | inr e ↦ rw e (b, Precedes-insert_file a f gs h bs)
]

insert_file-IsInOrder : (f : File) (fs : List File) → IsInOrder fs → IsInOrder (insert_file f fs)
unfolding insert_file
insert_file-IsInOrder f [] h = (tt, tt)
insert_file-IsInOrder f (g ∷ gs) (b, h) = elim (Bool-cases (le_text f.name g.name)) [
  | inl e ↦ rw e ((e, Precedes-trans f g gs e b), (b, h))
  | inr e ↦
      rw e (
        Precedes-insert_file g f gs (le_text_total f.name g.name e) b,
        insert_file-IsInOrder f gs h,
      )
]

pub sort_files-IsInOrder : (fs : List File) → IsInOrder (sort_files fs)
unfolding sort_files
sort_files-IsInOrder [] = tt
sort_files-IsInOrder (f ∷ fs) = insert_file-IsInOrder f (sort_files fs) (sort_files-IsInOrder fs)

insert_file-perm : (f : File) (fs : List File) → Perm (insert_file f fs) (f ∷ fs)
unfolding insert_file
insert_file-perm f [] = Perm.refl (f ∷ [])
insert_file-perm f (g ∷ gs) = elim (Bool-cases (le_text f.name g.name)) [
  | inl e ↦ rw e (Perm.refl (f ∷ g ∷ gs))
  | inr e ↦ rw e (Perm.trans (Perm.cons g (insert_file-perm f gs)) (Perm.swap f g gs))
]

pub sort_files-perm : (fs : List File) → Perm (sort_files fs) fs
unfolding sort_files
sort_files-perm [] = Perm.refl []
sort_files-perm (f ∷ fs) =
    Perm.trans (insert_file-perm f (sort_files fs)) (Perm.cons f (sort_files-perm fs))

bytes-insert_file : (f : File) (fs : List File) → bytes (insert_file f fs) ≡ f.size + bytes fs
unfolding insert_file bytes
bytes-insert_file f [] = refl
bytes-insert_file f (g ∷ gs) = ground (arith, bytes-insert_file f gs)

pub bytes-sort_files : (fs : List File) → bytes (sort_files fs) ≡ bytes fs
unfolding sort_files bytes
bytes-sort_files [] = refl
bytes-sort_files (f ∷ fs) = omega (arith, bytes-insert_file f (sort_files fs), bytes-sort_files fs)

-- The files of the front come before those of the rest.
pub IsInOrder-append :
    (old kept : List File) → IsInOrder (old ++ kept) → All (λ f. Precedes f kept) old
IsInOrder-append [] kept h = tt
IsInOrder-append (f ∷ old) kept (b, h) = (precedes_rest old b, IsInOrder-append old kept h)
  where
    precedes_rest : (fs : List File) → Precedes f (fs ++ kept) → Precedes f kept
    precedes_rest [] b = b
    precedes_rest (g ∷ fs) (e, b) = precedes_rest fs b
