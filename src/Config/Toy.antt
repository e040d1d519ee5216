-- ===== src/Config/Toy.antt =====
-- A codec that meets what is asked of toml, for configurations that differ from the default in their
-- token only: the text is the token.
use native.Mathlib.Decide.{ℕ_discrete}
use rust_dns.Base.{◌≡◌, refl, sym, ap, ◌∙◌, Option, none, some, some-inj}
use rust_dns.Text.{Text}
use rust_dns.Config.{Config, default_config}
use rust_dns.Config.Atomic.{Toml}

abbrev pub with_only_token : Text → Config
with_only_token token = record default_config {
  web = record default_config.web { admin_token = token };
}

unfoldable pub config_discrete : Discrete Config
unfolding ℕ_discrete
config_discrete = hlevel ℕ_discrete

abbrev pub printed : (cfg : Config) → Dec (cfg ≡ with_only_token cfg.web.admin_token) → Option Text
printed cfg (yes e) = some cfg.web.admin_token
printed cfg (no n) = none

pub printed-parses :
    (cfg : Config) (d : Dec (cfg ≡ with_only_token cfg.web.admin_token)) (s : Text)
    → printed cfg d ≡ some s
    → some (with_only_token s) ≡ some cfg
printed-parses cfg (yes e) s h = ap some (ap with_only_token (sym (some-inj h)) ∙ sym e)
printed-parses cfg (no n) s h = cc

abbrev pub decide : (cfg : Config) → Dec (cfg ≡ with_only_token cfg.web.admin_token)
decide cfg = config_discrete cfg (with_only_token cfg.web.admin_token)

abbrev pub toy_toml : Toml
toy_toml = record {
  to_string_pretty = λ cfg. printed cfg (decide cfg);
  from_str = λ s. some (with_only_token s);
  from_str-to_string_pretty = λ cfg s h. printed-parses cfg (decide cfg) s h;
}

pub printed-token :
    (token : Text) (d : Dec (with_only_token token ≡ with_only_token token))
    → printed (with_only_token token) d ≡ some token
printed-token token (yes e) = refl
printed-token token (no n) = absurd (n refl)
