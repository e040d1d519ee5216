-- ===== src/Web/Untouched.antt =====
-- What the handlers of src/web.rs do not touch: the counters, the permits and the channels.
use rust_dns.Base.{is_empty, ◌≡◌, inl, inr, refl, Bool-cases, Option-cases}
use rust_dns.State.{Moka, AppState}
use rust_dns.Text.Unicode.{Unicode}
use rust_dns.Web.{
  Outside, set_blocklist, store_config, set_config, ConfigUpdate, given, first_invalid, updated,
}
use rust_dns.Text.{Text}
use rust_dns.Config.{Config}
use rust_dns.Blocklist.{to_file_text, from_text}

module _ (m : Moka) where
  pub record LeavesAlone (st st' : AppState m) : Type 0 where
    pub stats : st'.stats ≡ st.stats
    pub inflight : st'.inflight ≡ st.inflight
    pub persist : st'.persist ≡ st.persist
    pub qlog : st'.qlog ≡ st.qlog

  abbrev pub untouched : (st : AppState m) → LeavesAlone st st
  untouched st = record { stats = refl; inflight = refl; persist = refl; qlog = refl }

module _ ⦃u : Unicode⦄ (m : Moka) (io : Outside) where
  pub set_blocklist-LeavesAlone :
      (body : Text) (st : AppState m) → LeavesAlone m st (set_blocklist m io body st).0
  unfolding set_blocklist
  set_blocklist-LeavesAlone body st =
      elim (Option-cases
        (io.write_text st.config.web.blocklist_path (to_file_text (from_text body)))) [
          | inl written ↦
              rw (written, set_blocklist)
                (record { stats = refl; inflight = refl; persist = refl; qlog = refl })
          | inr (e, failed) ↦ rw (failed, set_blocklist) (untouched m st)
        ]

  -- Nor does a new blocklist touch the configuration and the upstream.
  pub set_blocklist_setup :
      (body : Text) (st : AppState m)
      → ((set_blocklist m io body st).0.config ≡ st.config)
        × ((set_blocklist m io body st).0.upstream ≡ st.upstream)
  unfolding set_blocklist
  set_blocklist_setup body st =
      elim (Option-cases
        (io.write_text st.config.web.blocklist_path (to_file_text (from_text body)))) [
          | inl written ↦ rw (written, set_blocklist) (refl, refl)
          | inr (e, failed) ↦ rw (failed, set_blocklist) (refl, refl)
        ]

  store_config-LeavesAlone :
      (cfg : Config) (st : AppState m) → LeavesAlone m st (store_config m io cfg st).0
  unfolding store_config
  store_config-LeavesAlone cfg st = elim (Option-cases (io.save st.config_path cfg)) [
    | inl written ↦
        rw (written, store_config)
          (record { stats = refl; inflight = refl; persist = refl; qlog = refl })
    | inr (e, failed) ↦ rw (failed, store_config) (untouched m st)
  ]

  pub set_config-LeavesAlone :
      (body : ConfigUpdate) (st : AppState m) → LeavesAlone m st (set_config m io body st).0
  unfolding set_config
  set_config-LeavesAlone body st = elim (Bool-cases (is_empty (given body.upstream_servers))) [
    | inl nobody ↦ rw (nobody, set_config) (untouched m st)
    | inr somebody ↦
        elim (Option-cases (first_invalid io.parse_socket (given body.upstream_servers))) [
          | inr (s, invalid) ↦ rw (somebody, set_config) (rw invalid (untouched m st))
          | inl valid ↦ elim (Option-cases (io.parse_ipv4 body.sinkhole_ipv4)) [
            | inl bad ↦ rw (somebody, set_config) (rw valid (rw bad (untouched m st)))
            | inr (ipv4, four) ↦ elim (Option-cases (io.parse_ipv6 body.sinkhole_ipv6)) [
              | inl bad ↦ rw (somebody, set_config) (rw valid (rw four (rw bad (untouched m st))))
              | inr (ipv6, six) ↦
                  rw (somebody, set_config)
                    (rw valid (
                      rw four (
                        rw six (
                          store_config-LeavesAlone
                            (updated body (given body.upstream_servers) ipv4 ipv6 st.config) st))))
            ]
          ]
        ]
  ]
