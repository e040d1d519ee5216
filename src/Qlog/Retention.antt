-- ===== src/Qlog/Retention.antt =====
-- What the cap on the query log's size deletes.
use mathlib.Core.List.{Perm}
use rust_dns.Qlog.Sorted.{
  bytes, Precedes, IsInOrder, sort_files-IsInOrder, sort_files-perm, bytes-sort_files,
  IsInOrder-append,
}
use rust_dns.Base.{
  All, ◌-◌, ℕ, ◌+◌, ◌%◌, ◌^◌, ◌≡◌, ◌≤◌, ◌<◌, inl, inr, refl, sym, ap, ◌∙◌, true, List, [], ◌∷◌,
  ◌++◌, arith, Bool-cases, leb,
}
use rust_dns.Qlog.{File, total, retain, enforce_retention, DirEntry, sort_files, segments}

total-bytes : (fs : List File) → bytes fs < 2 ^ 64 → total fs ≡ bytes fs
unfolding total bytes
total-bytes [] h = refl
total-bytes (f ∷ fs) h = omega (arith, total-bytes fs (omega arith))

-- How a list of files is cut.
pub record Retained (max_bytes : ℕ) (files kept : List File) : Type 0 where
  pub old : List File
  pub split : files ≡ old ++ kept
  pub fits : bytes kept ≤ max_bytes
  -- No file was deleted without need.
  pub needed :
      (before : List File) (f : File) → old ≡ before ++ (f ∷ []) → max_bytes < bytes (f ∷ kept)

not_snoc : (before : List File) (f : File) → ¬ ([] ≡ before ++ (f ∷ []))
not_snoc [] f e = cc
not_snoc (g ∷ before) f e = cc

cons-inj : {f g : File} {fs gs : List File} → f ∷ fs ≡ g ∷ gs → (f ≡ g) × (fs ≡ gs)
cons-inj e = (cc, cc)

last_deleted :
    (max_bytes : ℕ) (f : File) (fs kept : List File)
    → max_bytes < bytes (f ∷ fs)
    → (r : Retained max_bytes fs kept) (before : List File) (g : File)
    → f ∷ r.old ≡ before ++ (g ∷ [])
    → max_bytes < bytes (g ∷ kept)
last_deleted max_bytes f fs kept over r [] g e =
    let (same, nothing) = cons-inj e in
    let all : fs ≡ kept = r.split ∙ ap (λ o. o ++ kept) nothing in rw (sym same, sym all) over
last_deleted max_bytes f fs kept over r (b ∷ before) g e =
    let (_, rest) = cons-inj e in r.needed before g rest

-- One more file is deleted in front of the others.
deleted :
    (max_bytes : ℕ) (f : File) (fs kept : List File)
    → max_bytes < bytes (f ∷ fs)
    → Retained max_bytes fs kept
    → Retained max_bytes (f ∷ fs) kept
deleted max_bytes f fs kept over r = record {
  old = f ∷ r.old;
  split = ap (λ l. f ∷ l) r.split;
  fits = r.fits;
  needed = last_deleted max_bytes f fs kept over r;
}

retain-Retained :
    (max_bytes : ℕ) (files : List File) (sum : ℕ)
    → bytes files < 2 ^ 64
    → sum ≡ bytes files
    → Retained max_bytes files (retain max_bytes (λ name. true) sum files)
unfolding retain bytes
retain-Retained max_bytes [] sum h e = record {
  old = [];
  split = refl;
  fits = omega arith;
  needed = λ before f none_old. absurd (not_snoc before f none_old);
}
retain-Retained max_bytes (f ∷ fs) sum h e = elim (Bool-cases (leb sum max_bytes)) [
  | inl small ↦ rw small (record {
    old = [];
    split = refl;
    fits = ground (arith, small, e);
    needed = λ before g none_old. absurd (not_snoc before g none_old);
  })
  | inr large ↦
      let less : (sum + (2 ^ 64 - f.size)) % 2 ^ 64 ≡ bytes fs = omega (arith, e, h) in
      let over : max_bytes < bytes (f ∷ fs) = ground (arith, large, e) in
      rw large (
        deleted max_bytes f fs _ over
          (retain-Retained max_bytes fs ((sum + (2 ^ 64 - f.size)) % 2 ^ 64) (omega arith) less))
]

-- Which of the listed segments are deleted and which are kept.
pub record KeepsNewest (max_bytes : ℕ) (listed kept : List File) : Type 0 where
  pub old : List File
  -- Every listed segment is deleted or kept.
  pub each : Perm (old ++ kept) listed
  -- No name of a segment that is kept comes before one that is deleted.
  pub oldest : All (λ f. Precedes f kept) old
  pub in_order : IsInOrder (old ++ kept)
  pub fits : bytes kept ≤ max_bytes
  -- With the last of the deleted segments there would be too many bytes.
  pub needed :
      (before : List File) (f : File) → old ≡ before ++ (f ∷ []) → max_bytes < bytes (f ∷ kept)

sorted-KeepsNewest :
    (max_bytes : ℕ) (listed kept : List File)
    → Retained max_bytes (sort_files listed) kept
    → KeepsNewest max_bytes listed kept
sorted-KeepsNewest max_bytes listed kept r =
    let in_order : IsInOrder (r.old ++ kept) = rw r.split at (sort_files-IsInOrder listed) in
    record {
      old = r.old;
      each = rw r.split at (sort_files-perm listed);
      oldest = IsInOrder-append r.old kept in_order;
      in_order = in_order;
      fits = r.fits;
      needed = r.needed;
    }

-- If every segment can be deleted and all together have less than 2^64 bytes, then each listed segment
-- is deleted or kept, no name of a kept one comes before that of a deleted one in the order of texts,
-- those that are kept have at most `max_bytes`, and with the last of the deleted ones they would have
-- more.
pub enforce_retention-KeepsNewest :
    (max_bytes : ℕ) (dir : List DirEntry)
    → bytes (segments dir) < 2 ^ 64
    → KeepsNewest max_bytes (segments dir) (enforce_retention max_bytes (λ name. true) dir)
unfolding enforce_retention
enforce_retention-KeepsNewest max_bytes dir h =
    let files = sort_files (segments dir) in
    let small : bytes files < 2 ^ 64 = rw (bytes-sort_files (segments dir)) h in
    sorted-KeepsNewest max_bytes (segments dir) _
      (retain-Retained max_bytes files (total files) small (total-bytes files small))
