-- ===== src/Base/Lists.antt =====
-- Lists measured by native numbers, under the library's names, and predicates on lists.
use Prim.Native.Nat.{ℕ, zero, suc, ◌+◌, ◌-◌, min}
use mathlib.Core.Path.{◌≡◌, refl, ap, sym, ◌∙◌}
use mathlib.Core.Logic.{◌⊎◌, inl, inr}
use mathlib.Core.List.{List, [], ◌∷◌, ◌++◌, map}
use mathlib.Core.Option.{Option, none, some}
use mathlib.Core.Bool.{Bool, true, false}
use native.Mathlib.Omega.{arith}

module _ {ℓ} {A : Type ℓ} where
  abbrev pub length : List A → ℕ
  length [] = 0
  length (x ∷ xs) = suc (length xs)

  abbrev pub take : ℕ → List A → List A
  take zero xs = []
  take (suc n) [] = []
  take (suc n) (x ∷ xs) = x ∷ take n xs

  abbrev pub drop : ℕ → List A → List A
  drop zero xs = xs
  drop (suc n) [] = []
  drop (suc n) (x ∷ xs) = drop n xs

  -- `is_empty` of a slice, a vector and a string.
  abbrev pub is_empty : List A → Bool
  is_empty [] = true
  is_empty (x ∷ xs) = false

  abbrev pub first? : List A → Option A
  first? [] = none
  first? (x ∷ xs) = some x

  pub length-append : (xs ys : List A) → length (xs ++ ys) ≡ length xs + length ys
  length-append [] ys = omega arith
  length-append (x ∷ xs) ys = omega (arith, length-append xs ys)

  pub take-append-drop : (n : ℕ) (xs : List A) → take n xs ++ drop n xs ≡ xs
  take-append-drop zero xs = refl
  take-append-drop (suc n) [] = refl
  take-append-drop (suc n) (x ∷ xs) = ap (λ t. x ∷ t) (take-append-drop n xs)

  pub length-take : (n : ℕ) (xs : List A) → length (take n xs) ≡ min n (length xs)
  length-take zero xs = omega arith
  length-take (suc n) [] = omega arith
  length-take (suc n) (x ∷ xs) = omega (arith, length-take n xs)

  pub length-drop : (n : ℕ) (xs : List A) → length (drop n xs) ≡ length xs - n
  length-drop zero xs = omega arith
  length-drop (suc n) [] = omega arith
  length-drop (suc n) (x ∷ xs) = omega (arith, length-drop n xs)

  pub take_prefix : (xs ys : List A) → take (length xs) (xs ++ ys) ≡ xs
  take_prefix [] ys = refl
  take_prefix (x ∷ xs) ys = ap (λ t. x ∷ t) (take_prefix xs ys)

  pub drop_prefix : (xs ys : List A) → drop (length xs) (xs ++ ys) ≡ ys
  drop_prefix [] ys = refl
  drop_prefix (x ∷ xs) ys = drop_prefix xs ys

-- Membership that keeps its position.
pub data In {ℓ} {A : Type ℓ} (a : A) : List A → Type ℓ where
  here : {x : A} {xs : List A} → a ≡ x → In a (x ∷ xs)
  there : {x : A} {xs : List A} → In a xs → In a (x ∷ xs)

module _ {ℓ} {A : Type ℓ} where
  pub not-In-nil : {a : A} → ¬ In a []
  not-In-nil m = elim m [ ]

  pub In-cons : {a x : A} {xs : List A} → In a (x ∷ xs) → (a ≡ x) ⊎ In a xs
  In-cons (here e) = inl e
  In-cons (there m) = inr m

  pub In-append_left : {a : A} {xs : List A} (ys : List A) → In a xs → In a (xs ++ ys)
  In-append_left ys (here e) = here e
  In-append_left ys (there m) = there (In-append_left ys m)

  pub In-append_right : {a : A} (xs : List A) {ys : List A} → In a ys → In a (xs ++ ys)
  In-append_right [] m = m
  In-append_right (x ∷ xs) m = there (In-append_right xs m)

  pub In-append : {a : A} (xs : List A) {ys : List A} → In a (xs ++ ys) → In a xs ⊎ In a ys
  In-append [] m = inr m
  In-append (x ∷ xs) (here e) = inl (here e)
  In-append (x ∷ xs) (there m) = elim (In-append xs m) [ inl h ↦ inl (there h) | inr h ↦ inr h ]

module _ {ℓ κ} {A : Type ℓ} where
  abbrev pub All : (A → Type κ) → List A → Type κ
  All P [] = Unit {κ}
  All P (x ∷ xs) = P x × All P xs

  pub All-append : (P : A → Type κ) (xs ys : List A) → All P xs → All P ys → All P (xs ++ ys)
  All-append P [] ys hx hy = hy
  All-append P (x ∷ xs) ys (h, hx) hy = (h, All-append P xs ys hx hy)

  pub All-append_left : (P : A → Type κ) (xs ys : List A) → All P (xs ++ ys) → All P xs
  All-append_left P [] ys h = tt
  All-append_left P (x ∷ xs) ys (h, hs) = (h, All-append_left P xs ys hs)

  pub All-append_right : (P : A → Type κ) (xs ys : List A) → All P (xs ++ ys) → All P ys
  All-append_right P [] ys h = h
  All-append_right P (x ∷ xs) ys (h, hs) = All-append_right P xs ys hs

  pub All-take : (P : A → Type κ) (n : ℕ) (xs : List A) → All P xs → All P (take n xs)
  All-take P zero xs h = tt
  All-take P (suc n) [] h = tt
  All-take P (suc n) (x ∷ xs) (h, hs) = (h, All-take P n xs hs)

  pub All-drop : (P : A → Type κ) (n : ℕ) (xs : List A) → All P xs → All P (drop n xs)
  All-drop P zero xs h = h
  All-drop P (suc n) [] h = h
  All-drop P (suc n) (x ∷ xs) (h, hs) = All-drop P n xs hs

module _ {ℓ κ} {A : Type ℓ} {P : A → Type κ} where
  pub All-map : {ι : A → Type κ} (f : (a : A) → P a → ι a) (xs : List A) → All P xs → All ι xs
  All-map f [] h = tt
  All-map f (x ∷ xs) (h, hs) = (f x h, All-map f xs hs)

  pub All-of_In : (xs : List A) → ((a : A) → In a xs → P a) → All P xs
  All-of_In [] f = tt
  All-of_In (x ∷ xs) f = (f x (here refl), All-of_In xs (λ a m. f a (there m)))

module _ {ℓ κ} {A : Type ℓ} where
  pub All-In : (P : A → Type κ) {a : A} (xs : List A) → All P xs → In a xs → P a
  All-In P [] h m = elim m [ ]
  All-In P (x ∷ xs) (h, hs) (here e) = rw e h
  All-In P (x ∷ xs) (h, hs) (there m) = All-In P xs hs m

module _ {ℓ κ} {A : Type ℓ} {B : Type κ} where
  pub In-map : (f : A → B) {b : B} (xs : List A) → In b (map f xs) → (a : A) × In a xs × (b ≡ f a)
  In-map f [] m = elim m [ ]
  In-map f (x ∷ xs) (here e) = (x, here refl, e)
  In-map f (x ∷ xs) (there m) = let (a, k, e) = In-map f xs m in (a, there k, e)

  pub map-In : (f : A → B) {a : A} {xs : List A} → In a xs → In (f a) (map f xs)
  map-In f (here e) = here (ap f e)
  map-In f (there m) = there (map-In f m)

module _ {ℓ} {A : Type ℓ} where
  pub drop-nil : (n : ℕ) → drop {A = A} n [] ≡ []
  drop-nil zero = refl
  drop-nil (suc n) = refl

  pub drop-drop : (m n : ℕ) (xs : List A) → drop n (drop m xs) ≡ drop (m + n) xs
  drop-drop zero n xs = ap (λ (k : ℕ). drop k xs) (omega arith)
  drop-drop (suc m) n [] = drop-nil n ∙ sym (drop-nil (suc m + n))
  drop-drop (suc m) n (x ∷ xs) =
      let e : suc (m + n) ≡ suc m + n = omega arith in
      drop-drop m n xs ∙ ap (λ (k : ℕ). drop k (x ∷ xs)) e
