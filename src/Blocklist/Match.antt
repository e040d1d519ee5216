-- ===== src/Blocklist/Match.antt =====
-- What `is_blocked` answers, said by the dots of the name.
use rust_dns.Base.{
  ℕ, zero, suc, ◌<◌, ◌≡◌, refl, ◌↔◌, ◌⊎◌, inl, inr, true, false, some, List, [], ◌∷◌, ◌++◌, drop,
  is_empty, length, length-drop, arith, Bool-cases, Option-cases, take,
}
use rust_dns.Text.{Text, find}
use rust_dns.Text.Search.{Behind, Behind-trans, find-some, find-Behind}
use rust_dns.Blocklist.{Blocklist, contains, suffix_loop, rounds, blocked_by_wildcard, is_blocked}

-- `d` is the name or an ancestor of it: what follows one of its dots.
abbrev pub SelfOrAncestor : Text → Text → Type 0
SelfOrAncestor d name = Behind b'.' d name

abbrev pub Ancestor : Text → Text → Type 0
Ancestor d name = (pre : Text) × (name ≡ pre ++ (b'.' ∷ d))

-- A listed domain covers the name.
pub record Covers (set : List Text) (name : Text) : Type 0 where
  pub domain : Text
  pub listed : contains set domain ≡ true
  pub reach : SelfOrAncestor domain name

pub record CoversBelow (set : List Text) (name : Text) : Type 0 where
  pub domain : Text
  pub listed : contains set domain ≡ true
  pub reach : Ancestor domain name

pub suffix_loop_sound :
    (fuel : ℕ) (set : List Text) (s : Text) → suffix_loop fuel set s ≡ true → Covers set s
unfolding suffix_loop
suffix_loop_sound zero set s h = cc
suffix_loop_sound (suc fuel) set s h = elim (Bool-cases (contains set s)) [
  | inl e ↦ record { domain = s; listed = e; reach = inl refl }
  | inr e ↦ elim (Option-cases (find b'.' s)) [
    | inl f ↦ absurd (ground arith)
    | inr (i, f) ↦
        let c = suffix_loop_sound fuel set (drop (suc i) s) (ground arith) in
        record {
          domain = c.domain;
          listed = c.listed;
          reach = inr (
              Behind-trans b'.' c.domain (drop (suc i) s) s c.reach (take i s)
                (find-some b'.' s i f).0);
        }
  ]
]

drop_shorter : (c : ℕ) (s : Text) (i : ℕ) → find c s ≡ some i → length (drop (suc i) s) < length s
unfolding find
drop_shorter c [] i e = cc
drop_shorter c (x ∷ s) i e = omega (arith, length-drop i s)

pub suffix_loop_complete :
    (fuel : ℕ) (set : List Text) (d s : Text)
    → length s < fuel
    → contains set d ≡ true
    → SelfOrAncestor d s
    → suffix_loop fuel set s ≡ true
unfolding suffix_loop
suffix_loop_complete zero set d s h l r = absurd (omega arith)
suffix_loop_complete (suc fuel) set d s h l (inl e) = rw (← e, l)
suffix_loop_complete (suc fuel) set d s h l (inr (pre, e)) =
    let (i, found, b) = find-Behind b'.' pre d in
    let found' : find b'.' s ≡ some i = rw e found in
    let b' : SelfOrAncestor d (drop (suc i) s) = rw e b in
    let ih =
      suffix_loop_complete fuel set d (drop (suc i) s) (omega (arith, drop_shorter b'.' s i found'))
        l b' in
    ground (arith, found', ih)

contains-empty : (set : List Text) (d : Text) → contains set d ≡ true → is_empty set ≡ false
unfolding contains
contains-empty [] d h = cc
contains-empty (e ∷ es) d h = refl

blocked_by_wildcard_sound :
    (set : List Text) (name : Text) → blocked_by_wildcard set name ≡ true → CoversBelow set name
unfolding blocked_by_wildcard
blocked_by_wildcard_sound set name h = elim (Option-cases (find b'.' name)) [
  | inl f ↦ absurd (ground arith)
  | inr (i, f) ↦
      let c =
        suffix_loop_sound (rounds (drop (suc i) name)) set (drop (suc i) name) (ground arith) in
      record {
        domain = c.domain;
        listed = c.listed;
        reach =
            Behind-trans b'.' c.domain (drop (suc i) name) name c.reach (take i name)
              (find-some b'.' name i f).0;
      }
]

blocked_by_wildcard_complete :
    (set : List Text) (name : Text) → CoversBelow set name → blocked_by_wildcard set name ≡ true
unfolding blocked_by_wildcard
blocked_by_wildcard_complete set name c =
    let (pre, e) = c.reach in
    let (i, found, b) = find-Behind b'.' pre c.domain in
    let found' : find b'.' name ≡ some i = rw e found in
    let parent = drop (suc i) name in
    let b' : SelfOrAncestor c.domain parent = rw e b in
    ground (
      arith,
      found',
      contains-empty set c.domain c.listed,
      suffix_loop_complete (rounds parent) set c.domain parent (omega arith) c.listed b',
    )

-- `is_blocked` answers yes exactly when a plain entry is the name or one of its ancestors, or a
-- wildcard entry is one of its ancestors.
pub is_blocked_iff :
    (bl : Blocklist) (name : Text)
    → (is_blocked bl name ≡ true) ↔ (Covers bl.exact name ⊎ CoversBelow bl.wildcard name)
unfolding is_blocked
is_blocked_iff bl name = (forth, back)
  where
    forth : is_blocked bl name ≡ true → Covers bl.exact name ⊎ CoversBelow bl.wildcard name
    forth h = elim (Bool-cases (suffix_loop (rounds name) bl.exact name)) [
      | inl e ↦ inl (suffix_loop_sound (rounds name) bl.exact name e)
      | inr e ↦ inr (blocked_by_wildcard_sound bl.wildcard name (ground arith))
    ]

    back : Covers bl.exact name ⊎ CoversBelow bl.wildcard name → is_blocked bl name ≡ true
    back (inl c) =
        rw
          (suffix_loop_complete (rounds name) bl.exact c.domain name (omega arith) c.listed c.reach)
    back (inr c) = ground (arith, blocked_by_wildcard_complete bl.wildcard name c)
