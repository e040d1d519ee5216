-- ===== src/Blocklist/File.antt =====
-- src/blocklist.rs: `from_file`, which writes a first list if there is none.
use rust_dns.Base.{Bool, Option, none, some, [], ◌∷◌, ◌++◌, if◌then◌else◌}
use rust_dns.Text.{Text, text}
use rust_dns.Text.Unicode.{Unicode}
use rust_dns.Config.Atomic.{Disk, put}
use rust_dns.Blocklist.{Blocklist, from_text}

-- A line and its end.
abbrev line_of : Text → Text → Text
line_of s rest = s ++ (10 ∷ rest)

unfoldable pub default_blocklist : Text
default_blocklist = line_of (text "# rust-dns blocklist — one domain per line.") (
    line_of (text "# A plain domain blocks the apex and all subdomains:") (
      line_of
        (text "#   facebook.com   -> blocks facebook.com, www.facebook.com, m.facebook.com, …")
        (line_of (text "# A wildcard blocks subdomains only (apex still resolves):") (
          line_of (text "#   *.example.com  -> blocks www.example.com but NOT example.com") (
            line_of (text "# Lines starting with # are comments.")
              (line_of (text "facebook.com") []))))))

module _ ⦃u : Unicode⦄ where
  -- `writes` is whether the write of a first list succeeds, `readable` whether the file can be read.
  unfoldable pub from_file : (writes readable : Bool) → Text → Disk → Disk × Option Blocklist
  from_file writes readable path d = elim (d path) [
    | some s ↦ (d, if readable then some (from_text s) else none)
    | none ↦
        if writes
        then (
          put path (some default_blocklist) d,
          if readable then some (from_text default_blocklist) else none,
        )
        else (d, none)
  ]
