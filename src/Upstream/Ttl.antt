-- ===== src/Upstream/Ttl.antt =====
-- How long an answer may be kept.
use rust_dns.Base.{
  ℕ, ◌≤◌, ◌<◌, ◌≡◌, ◌≢◌, inl, inr, refl, ap, false, none, some, List, [], ◌∷◌, map, In, here, there,
  In-cons, not-In-nil, arith, min, max, is_empty, ltb, leb, ◌==◌, if◌then◌else◌, Bool-cases,
  Option-cases, map-In,
}
use rust_dns.Bytes.{Bytes}
use rust_dns.Hickory.{Hickory, Message, Answer, nx_domain}
use rust_dns.Result.{ok, panic}
use rust_dns.Upstream.{Upstream, clamp, minimum, answer_ttl, effective_ttl}

minimum-le : (xs : List ℕ) (m x : ℕ) → minimum xs ≡ some m → In x xs → m ≤ x
unfolding minimum
minimum-le [] m x h i = cc
minimum-le (y ∷ ys) m x h i = elim (Option-cases (minimum ys)) [
  | inl e ↦ elim (In-cons i) [ inl p ↦ ground (arith, e, p) | inr n ↦ absurd (nothing ys e n) ]
  | inr (k, e) ↦ elim (In-cons i) [
    | inl p ↦ ground (arith, e, p)
    | inr n ↦ ground (arith, e, minimum-le ys k x e n)
  ]
]
  where
    nothing : (zs : List ℕ) → minimum zs ≡ none → ¬ In x zs
    nothing [] e n = not-In-nil n
    nothing (z ∷ zs) e n = ground arith

minimum-some : (xs : List ℕ) → is_empty xs ≡ false → (m : ℕ) × (minimum xs ≡ some m)
unfolding minimum
minimum-some [] h = cc
minimum-some (x ∷ xs) h = elim (Option-cases (minimum xs)) [
  | inl e ↦ (x, rw (e, minimum))
  | inr (k, e) ↦ (min x k, rw (e, minimum))
]

clamp_lem :
    (lo hi x : ℕ)
    → lo ≤ hi
    → (y : ℕ) × (clamp lo hi x ≡ ok y)
      × (lo ≤ y)
      × (y ≤ hi)
      × (y ≤ max lo x)
      × (lo ≤ x → x ≤ hi → y ≡ x)
unfolding clamp
clamp_lem lo hi x h = (
  if ltb x lo then lo else if ltb hi x then hi else x,
  ground arith,
  ground arith,
  ground arith,
  ground arith,
  λ p q. ground arith,
)

In-not_empty {ℓ} : {A : Type ℓ} {a : A} {xs : List A} → In a xs → is_empty xs ≡ false
In-not_empty (here e) = refl
In-not_empty (there m) = refl

module _ (h : Hickory) where
  answer_ttl-le :
      (up : Upstream) (msg : Message h.Name) (r : Answer h.Name)
      → (msg.metadata.response_code == nx_domain) ≡ false
      → In r msg.answers
      → answer_ttl h up (some msg) ≤ r.ttl
  unfolding answer_ttl
  answer_ttl-le up msg r code i =
      let ttls : List ℕ = map (λ x. x.ttl) msg.answers in
      let listed : In r.ttl ttls = map-In (λ x. x.ttl) i in
      let (m, e) = minimum-some ttls (In-not_empty listed) in
      ground (arith, code, In-not_empty i, e, minimum-le ttls m r.ttl e listed)

  -- With a floor not above the ceiling there is always a TTL, and it lies between them.
  pub effective_ttl_bounds :
      (up : Upstream) (wire : Bytes)
      → up.min_ttl ≤ up.max_ttl
      → (ttl : ℕ) × (effective_ttl h up wire ≡ ok ttl) × (up.min_ttl ≤ ttl) × (ttl ≤ up.max_ttl)
  unfolding effective_ttl
  effective_ttl_bounds up wire range =
      let (y, e, lo, hi, _, _) =
        clamp_lem up.min_ttl up.max_ttl (answer_ttl h up (h.from_vec wire)) range in
      (y, e, lo, hi)

  -- If a reply parses, is not NXDOMAIN and has a TTL at all, then that TTL is at most that of each
  -- of its answers, or the floor if that is larger.
  pub effective_ttl-le-answer :
      (up : Upstream) (wire : Bytes) (msg : Message h.Name) (r : Answer h.Name) (ttl : ℕ)
      → h.from_vec wire ≡ some msg
      → msg.metadata.response_code ≢ nx_domain
      → In r msg.answers
      → effective_ttl h up wire ≡ ok ttl
      → ttl ≤ max up.min_ttl r.ttl
  unfolding effective_ttl
  effective_ttl-le-answer up wire msg r ttl parsed code i found =
      elim (Bool-cases (leb up.min_ttl up.max_ttl)) [
        | inl range ↦
            let (y, e, _, _, top, _) =
              clamp_lem up.min_ttl up.max_ttl (answer_ttl h up (h.from_vec wire)) (ground arith) in
            let same : ttl ≡ y = cc in
            let least = answer_ttl-le up msg r (ground (arith, code)) i in
            let read : answer_ttl h up (h.from_vec wire) ≡ answer_ttl h up (some msg) =
              ap (answer_ttl h up) parsed in
            omega (arith, same, top, least, read)
        | inr empty_range ↦ absurd (unfold clamp in ground (arith, found, empty_range))
      ]

  -- A floor above the ceiling, which the configuration does not exclude, makes every reply panic.
  pub effective_ttl-panics :
      (up : Upstream) (wire : Bytes) → up.max_ttl < up.min_ttl → effective_ttl h up wire ≡ panic
  unfolding effective_ttl clamp
  effective_ttl-panics up wire range = ground arith

  pub effective_ttl_in_range :
      (up : Upstream) (wire : Bytes) (ttl : ℕ)
      → effective_ttl h up wire ≡ ok ttl
      → (up.min_ttl ≤ ttl) × (ttl ≤ up.max_ttl)
  unfolding effective_ttl clamp
  effective_ttl_in_range up wire ttl found = ground (arith, found)
