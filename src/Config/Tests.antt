-- ===== src/Config/Tests.antt =====
-- A configuration that is written and read back.
use rust_dns.Base.{◌≡◌, refl, ap, ◌∙◌, true, none, some, [], length, arith, ◌≢◌}
use rust_dns.Config.Atomic.{
  before_last_dot, file_stem, split_name, save, load_or_create, Disk, with_extension, Atomic,
  write_atomic, whole, write_atomic-Atomic, load_or_create-save,
}
use rust_dns.Config.{default_config}
use rust_dns.Text.{Text, text}
use rust_dns.Config.Toy.{printed, toy_toml, decide, printed-token}

abbrev path : Text
path = text "etc/rust-dns.d/config.toml"

abbrev blank : Disk
blank q = none

tmp : with_extension (text "tmp") path ≡ text "etc/rust-dns.d/config.tmp"
unfolding with_extension split_name file_stem before_last_dot
tmp = refl

tmp_differs : path ≢ with_extension (text "tmp") path
tmp_differs e = omega (arith, ap length (e ∙ tmp))

prints : printed default_config (decide default_config) ≡ some []
prints = printed-token [] (decide default_config)

saved :
    save toy_toml whole true path default_config blank
    ≡ ((write_atomic whole true path [] blank).0, true)
unfolding save write_atomic
saved = rw (prints, save) refl

write_atomic-Atomic_example :
    Atomic path
      (text "new")
      blank
      (write_atomic whole true path (text "new") blank).0
      (write_atomic whole true path (text "new") blank).1
write_atomic-Atomic_example = write_atomic-Atomic whole true path (text "new") blank tmp_differs

load_or_create-save_example :
    load_or_create toy_toml whole true path (write_atomic whole true path [] blank).0
    ≡ ((write_atomic whole true path [] blank).0, some default_config)
load_or_create-save_example =
    load_or_create-save toy_toml whole true path default_config blank _ tmp_differs saved
