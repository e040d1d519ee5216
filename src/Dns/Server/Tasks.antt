-- ===== src/Dns/Server/Tasks.antt =====
-- The list of the running tasks, with one of them set apart.
use rust_dns.Dns.Server.Steps.{spawned, waits, Phase, Running}
use rust_dns.Base.{
  ℕ, suc, ◌+◌, ◌≡◌, refl, ap, List, [], ◌∷◌, ◌++◌, length, arith, All, All-append_left,
  All-append_right, All-append,
}

abbrev pub waits_now : {Name : Type 0} → Phase Name → ℕ
waits_now spawned = 0
waits_now (waits l) = 1

-- The tasks that wait for a load.
abbrev pub waiting : {Name : Type 0} → List (Running Name) → ℕ
waiting [] = 0
waiting (t ∷ ts) = waits_now t.phase + waiting ts

pub waiting-append :
    {Name : Type 0} (before : List (Running Name)) (t : Running Name) (after : List (Running Name))
    → waiting (before ++ (t ∷ after)) ≡ waits_now t.phase + waiting (before ++ after)
waiting-append [] t after = refl
waiting-append (x ∷ before) t after = omega (arith, waiting-append before t after)

pub length_middle :
    {Name : Type 0} (before : List (Running Name)) (t : Running Name) (after : List (Running Name))
    → length (before ++ (t ∷ after)) ≡ suc (length (before ++ after))
length_middle [] t after = refl
length_middle (x ∷ before) t after = ap suc (length_middle before t after)

pub others :
    {Name : Type 0} (P : Running Name → Type 0) (before after : List (Running Name))
    (t : Running Name)
    → All P (before ++ (t ∷ after))
    → P t × All P (before ++ after)
others P before after t all =
    let left = All-append_left P before (t ∷ after) all in
    let right = All-append_right P before (t ∷ after) all in
    (right.0, All-append P before after left right.1)

pub instead :
    {Name : Type 0} (P : Running Name → Type 0) (before after : List (Running Name))
    (t t' : Running Name)
    → P t'
    → All P (before ++ (t ∷ after))
    → All P (before ++ (t' ∷ after))
instead P before after t t' k all =
    let left = All-append_left P before (t ∷ after) all in
    let right = All-append_right P before (t ∷ after) all in
    All-append P before (t' ∷ after) left (k, right.1)
