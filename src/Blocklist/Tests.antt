-- ===== src/Blocklist/Tests.antt =====
-- The unit tests of src/blocklist.rs, and the theorems at concrete inputs.
use rust_dns.Base.{length, ◌≡◌, refl, ◌↔◌, ◌⊎◌, true, false, [], ◌∷◌, In, arith, not_both}
use rust_dns.Text.{
  Text, text, lines, trim, trim_end_matches, is_whitespace, starts_with, strip_prefix,
}
use rust_dns.Text.Unicode.{ascii}
use rust_dns.Blocklist.Normal.{IsCanonical}
use rust_dns.Blocklist.Match.{Covers, CoversBelow, is_blocked_iff}
use rust_dns.Blocklist.Load.{is_blocked-from_text_iff}
use rust_dns.Blocklist.Entry.{IsPlain, only_exact, blocked_by_one}
use rust_dns.Blocklist.RoundTrip.{IsSaved, is_blocked-from_text-to_file_text}
use rust_dns.Blocklist.PastedUrl.{pasted_wildcard_changes}
use rust_dns.Blocklist.{
  Blocklist, from_text, is_blocked, load_line, empty, normalize, cut_at, after_scheme, trim,
  trim_end_matches, to_file_text,
}
use rust_dns.Blocklist.File.{default_blocklist}

abbrev bl : Blocklist
bl = record { exact = text "facebook.com" ∷ []; wildcard = text "example.com" ∷ [] }

abbrev lines_of_bl : Text
lines_of_bl = text "# comment\nfacebook.com\n*.Example.com\n\nfacebook.com\n"

loaded : from_text lines_of_bl ≡ bl
unfolding from_text load_line normalize cut_at after_scheme trim trim_end_matches
loaded = refl

plain_blocks_apex_and_subdomains :
    (is_blocked bl (text "facebook.com") ≡ true)
    × (is_blocked bl (text "a.b.facebook.com") ≡ true)
    × (is_blocked bl (text "notfacebook.com") ≡ false)
unfolding is_blocked
plain_blocks_apex_and_subdomains = (refl, refl, refl)

wildcard_blocks_subdomains_only :
    (is_blocked bl (text "example.com") ≡ false)
    × (is_blocked bl (text "deep.cdn.example.com") ≡ true)
    × (is_blocked bl (text "example.org") ≡ false)
unfolding is_blocked
wildcard_blocks_subdomains_only = (refl, refl, refl)

url_is_normalized :
    normalize (text " https://www.YouTube.com:443/watch?v=1") ≡ text "www.youtube.com"
unfolding normalize cut_at after_scheme trim trim_end_matches
url_is_normalized = refl

-- A dot that a space follows stays: the name can then not be met by any query.
dot_before_space : normalize (text "a.com. .") ≡ text "a.com."
unfolding normalize cut_at after_scheme trim trim_end_matches
dot_before_space = refl

canonical : IsCanonical (text "example.com")
unfolding is_whitespace
canonical = record {
  normal = record {
    lower = ground arith;
    no_slash = omega arith;
    no_colon = omega arith;
    trimmed = (refl, refl);
  };
  no_end_dot = refl;
  no_newline = omega arith;
  not_empty = λ e. cc;
}

facebook : IsCanonical (text "facebook.com")
unfolding is_whitespace
facebook = record {
  normal = record {
    lower = ground arith;
    no_slash = omega arith;
    no_colon = omega arith;
    trimmed = (refl, refl);
  };
  no_end_dot = refl;
  no_newline = omega arith;
  not_empty = λ e. cc;
}

IsPlain-facebook : IsPlain (text "facebook.com")
unfolding starts_with strip_prefix
IsPlain-facebook = (refl, refl)

plain : IsPlain (text "example.com")
unfolding starts_with strip_prefix
plain = (refl, refl)

saved : IsSaved bl
saved = record { exact = ((facebook, IsPlain-facebook), tt); wildcard = (canonical, tt) }

is_blocked_iff_example :
    (is_blocked bl (text "m.facebook.com") ≡ true)
    ↔ (Covers bl.exact (text "m.facebook.com") ⊎ CoversBelow bl.wildcard (text "m.facebook.com"))
is_blocked_iff_example = is_blocked_iff bl (text "m.facebook.com")

is_blocked-from_text_iff_example :
    (is_blocked (from_text lines_of_bl) (text "m.facebook.com") ≡ true) ↔ (
      (line : Text) × In line (lines lines_of_bl)
      × (is_blocked (load_line empty line) (text "m.facebook.com") ≡ true))
is_blocked-from_text_iff_example = is_blocked-from_text_iff lines_of_bl (text "m.facebook.com")

is_blocked-from_text-to_file_text_example :
    is_blocked (from_text (to_file_text bl)) (text "a.example.com")
    ≡ is_blocked bl (text "a.example.com")
is_blocked-from_text-to_file_text_example =
    is_blocked-from_text-to_file_text bl (text "a.example.com") saved

not_starred : is_blocked (only_exact (text "*.example.com")) (text "a.example.com") ≡ false
unfolding is_blocked
not_starred = refl

pasted_wildcard_changes_example :
    (is_blocked (load_line empty (text "https://*.example.com")) (text "a.example.com") ≡ false)
    × (is_blocked
          (from_text (to_file_text (load_line empty (text "https://*.example.com"))))
          (text "a.example.com")
        ≡ true)
pasted_wildcard_changes_example =
    pasted_wildcard_changes (text "example.com") (text "a.example.com") canonical (text "a", refl)
      (λ r.
        not_both ((blocked_by_one (text "*.example.com") (text "a.example.com")).1 r) not_starred)

-- The list of a first start.
first_start :
    (is_blocked (from_text default_blocklist) (text "m.facebook.com") ≡ true)
    × (is_blocked (from_text default_blocklist) (text "www.example.com") ≡ false)
    × (length (from_text default_blocklist).exact ≡ 1)
unfolding is_blocked from_text default_blocklist trim trim_end_matches cut_at after_scheme
first_start = (refl, refl, refl)
