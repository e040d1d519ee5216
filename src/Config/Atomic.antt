-- ===== src/Config/Atomic.antt =====
-- src/config.rs: `write_atomic`, `Config::save` and `Config::load_or_create`. The TOML codec is a
-- parameter; a disk maps the paths of files to what they hold.
use rust_dns.Text.{equal, equal_refl, equal_iff, text, Text}
use rust_dns.Base.{
  is_empty, ◌≢◌, ◌≡◌, inl, inr, refl, sym, ap, ◌∙◌, Bool, true, false, Option, none, some, [], ◌∷◌,
  ◌++◌, arith, Option-cases, if◌then◌else◌, ◌==◌,
}
use rust_dns.Config.{Config, default_config}

abbrev pub Disk : Type 0
Disk = Text → Option Text

unfoldable pub put : Text → Option Text → Disk → Disk
put path content d q = if equal path q then content else d q

-- The directory with its slash, and the name of the file.
unfoldable pub split_name : Text → Text × Text
split_name [] = ([], [])
split_name (c ∷ s) =
    let (dir, name) = split_name s in
    if is_empty dir then if c == b'/' then (c ∷ [], name) else ([], c ∷ name) else (c ∷ dir, name)

unfoldable pub before_last_dot : Text → Option Text
before_last_dot [] = none
before_last_dot (c ∷ s) = elim (before_last_dot s) [
  | some b ↦ some (c ∷ b)
  | none ↦ if c == b'.' then some [] else none
]

-- `file_stem`: a dot at the start of a name does not count.
unfoldable pub file_stem : Text → Text
file_stem [] = []
file_stem (c ∷ s) = elim (before_last_dot s) [ none ↦ c ∷ s | some b ↦ c ∷ b ]

-- `Path::with_extension`, of a path that names a file.
unfoldable pub with_extension : Text → Text → Text
with_extension e path = let (dir, name) = split_name path in dir ++ (file_stem name ++ (b'.' ∷ e))

-- How `fs::write` ends: with the whole file, or with an error or a crash that leaves any part of it.
pub data Write : Type 0 where
  whole : Write
  torn : Text → Write

-- The disk afterwards, and whether the call succeeded. A rename happens or does not.
unfoldable pub write_atomic : Write → Bool → Text → Text → Disk → Disk × Bool
write_atomic (torn part) renames path content d =
    (put (with_extension (text "tmp") path) (some part) d, false)
write_atomic whole false path content d =
    (put (with_extension (text "tmp") path) (some content) d, false)
write_atomic whole true path content d = (
  put path (some content) (
      put (with_extension (text "tmp") path) none
        (put (with_extension (text "tmp") path) (some content) d)),
  true,
)

-- What holds at the end of `write_atomic`.
pub record Atomic (path content : Text) (d d' : Disk) (good : Bool) : Type 0 where
  pub new_content : good ≡ true → d' path ≡ some content
  pub old_content : good ≡ false → d' path ≡ d path
  pub others : (q : Text) → q ≢ path → q ≢ with_extension (text "tmp") path → d' q ≡ d q

put_same : (path : Text) (content : Option Text) (d : Disk) → put path content d path ≡ content
unfolding put
put_same path content d = rw (equal_refl path) refl

put_other :
    (path q : Text) (content : Option Text) (d : Disk) → q ≢ path → put path content d q ≡ d q
unfolding put
put_other path q content d n = ground (arith, equal_iff path q, n)

-- If the temporary file is another one than the file: whether `write_atomic` succeeds, fails, or is cut
-- short by a crash between its steps, the file has the new content whole if it succeeds and else the
-- old one, and no file but the temporary one is touched besides.
pub write_atomic-Atomic :
    (w : Write) (renames : Bool) (path content : Text) (d : Disk)
    → path ≢ with_extension (text "tmp") path
    → Atomic path content d
        (write_atomic w renames path content d).0
        (write_atomic w renames path content d).1
unfolding write_atomic
write_atomic-Atomic (torn part) renames path content d n = record {
  new_content = λ e. cc;
  old_content = λ e. put_other (with_extension (text "tmp") path) path (some part) d n;
  others = λ q nq nt. put_other (with_extension (text "tmp") path) q (some part) d nt;
}
write_atomic-Atomic whole false path content d n = record {
  new_content = λ e. cc;
  old_content = λ e. put_other (with_extension (text "tmp") path) path (some content) d n;
  others = λ q nq nt. put_other (with_extension (text "tmp") path) q (some content) d nt;
}
write_atomic-Atomic whole true path content d n = record {
  new_content = λ e. put_same path (some content) _;
  old_content = λ e. cc;
  others = λ q nq nt.
      put_other path q (some content) _ nq
      ∙ put_other (with_extension (text "tmp") path) q none _ nt
      ∙ put_other (with_extension (text "tmp") path) q (some content) d nt;
}

-- serde and toml: what is printed is parsed to the same configuration.
pub record Toml : Type 0 where
  pub to_string_pretty : Config → Option Text
  pub from_str : Text → Option Config
  pub from_str-to_string_pretty :
      (cfg : Config) (s : Text) → to_string_pretty cfg ≡ some s → from_str s ≡ some cfg

module _ (toml : Toml) (w : Write) (renames : Bool) where
  unfoldable pub save : Text → Config → Disk → Disk × Bool
  save path cfg d = elim (toml.to_string_pretty cfg) [
    | none ↦ (d, false)
    | some s ↦ write_atomic w renames path s d
  ]

  unfoldable pub load_or_create : Text → Disk → Disk × Option Config
  load_or_create path d = elim (d path) [
    | some s ↦ (d, toml.from_str s)
    | none ↦
        let (d', good) = save path default_config d in
        (d', if good then some default_config else none)
  ]

  save-holds :
      (path : Text) (cfg : Config) (d d' : Disk)
      → path ≢ with_extension (text "tmp") path
      → save path cfg d ≡ (d', true)
      → (s : Text) × (toml.to_string_pretty cfg ≡ some s) × (d' path ≡ some s)
  unfolding save
  save-holds path cfg d d' n e = elim (Option-cases (toml.to_string_pretty cfg)) [
    | inl unprintable ↦ absurd (ground (arith, e, unprintable))
    | inr (s, printed) ↦
        let ends : write_atomic w renames path s d ≡ (d', true) = ground (arith, e, printed) in
        let a = write_atomic-Atomic w renames path s d n in
        (s, printed, sym (ap (λ p. p.0 path) ends) ∙ a.new_content (ap (λ p. p.1) ends))
  ]

  -- A configuration that was saved is the one that is loaded then, and loading leaves the disk alone, if
  -- the temporary file is another one than the file.
  pub load_or_create-save :
      (path : Text) (cfg : Config) (d d' : Disk)
      → path ≢ with_extension (text "tmp") path
      → save path cfg d ≡ (d', true)
      → load_or_create path d' ≡ (d', some cfg)
  unfolding load_or_create
  load_or_create-save path cfg d d' n e =
      let (s, printed, held) = save-holds path cfg d d' n e in
      rw (held, load_or_create) (ap (λ c. (d', c)) (toml.from_str-to_string_pretty cfg s printed))
