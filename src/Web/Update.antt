-- ===== src/Web/Update.antt =====
-- What the handlers that change the state leave in it.
use rust_dns.Web.{
  no_upstream, invalid_upstream, invalid_sinkhole_ipv4, invalid_sinkhole_ipv6, other, AppError,
  Reply, first_invalid, Outside, ConfigUpdate, store_config, set_config, set_blocklist, given,
  BlocklistResponse, get_blocklist, done, refused, updated, get_config, ConfigView,
}
use rust_dns.Blocklist.{empty, is_blocked, to_file_text, from_text, load_line}
use rust_dns.Base.{
  here, there, ◌↔◌, is_empty, ℕ, ◌≡◌, inl, inr, refl, sym, ap, true, false, Option, none, some,
  List, [], ◌∷◌, length, arith, Bool-cases, Option-cases, In, map,
}
use rust_dns.Text.Unicode.{Unicode}
use rust_dns.State.{Moka, AppState}
use rust_dns.Config.{parse_addrs, upstream_addrs}
use rust_dns.Text.{Text, lines}
use rust_dns.Upstream.{SocketAddr, set_servers}
use rust_dns.Blocklist.WellFormed.{to_sorted_vec_lem}
use rust_dns.Blocklist.Load.{is_blocked-from_text_iff}

first_invalid-parse_addrs :
    (parse : Text → Option SocketAddr) (ss : List Text)
    → first_invalid parse ss ≡ none
    → map some (parse_addrs parse ss) ≡ map parse ss
unfolding first_invalid parse_addrs
first_invalid-parse_addrs parse [] e = refl
first_invalid-parse_addrs parse (s ∷ ss) e = elim (Option-cases (parse s)) [
  | inl bad ↦ absurd (ground (arith, e, bad))
  | inr (a, good) ↦
      rw (good, parse_addrs)
        (ap (λ l. some a ∷ l) (first_invalid-parse_addrs parse ss (ground (arith, e, good))))
]

first_invalid-In :
    (parse : Text → Option SocketAddr) (ss : List Text) (s : Text)
    → first_invalid parse ss ≡ some s
    → In s ss × (parse s ≡ none)
unfolding first_invalid
first_invalid-In parse [] s e = absurd cc
first_invalid-In parse (x ∷ ss) s e = elim (Option-cases (parse x)) [
  | inl bad ↦ let same : x ≡ s = ground (arith, e, bad) in (here (sym same), rw same at bad)
  | inr (a, good) ↦
      let (at, bad) = first_invalid-In parse ss s (ground (arith, e, good)) in (there at, bad)
]

module _ ⦃u : Unicode⦄ (m : Moka) (io : Outside) where
  -- The state after an update that was accepted.
  pub record Applied (body : ConfigUpdate) (st st' : AppState m) : Type 0 where
    pub servers : map some st'.upstream.servers ≡ map io.parse_socket (given body.upstream_servers)
    pub some_server : is_empty (given body.upstream_servers) ≡ false
    pub names : st'.config.upstream.servers ≡ given body.upstream_servers
    pub mode : st'.config.dns.sinkhole_mode ≡ body.sinkhole_mode
    pub ipv4 : io.parse_ipv4 body.sinkhole_ipv4 ≡ some st'.config.dns.sinkhole_ipv4
    pub ipv6 : io.parse_ipv6 body.sinkhole_ipv6 ≡ some st'.config.dns.sinkhole_ipv6
    pub saved : io.save st.config_path st'.config ≡ none
    pub same_web : st'.config.web ≡ st.config.web
    pub same_blocklist : st'.blocklist ≡ st.blocklist
    pub same_cache : st'.cache ≡ st.cache
    pub same_min_ttl : st'.upstream.min_ttl ≡ st.upstream.min_ttl
    pub same_max_ttl : st'.upstream.max_ttl ≡ st.upstream.max_ttl
    pub same_negative_ttl : st'.upstream.negative_ttl ≡ st.upstream.negative_ttl

  -- What is wrong with an update that is refused with an error.
  abbrev pub Fault : ConfigUpdate → AppState m → AppError → Type 0
  Fault body st no_upstream = is_empty (given body.upstream_servers) ≡ true
  Fault body st (invalid_upstream s) =
      In s (given body.upstream_servers) × (io.parse_socket s ≡ none)
  Fault body st invalid_sinkhole_ipv4 = io.parse_ipv4 body.sinkhole_ipv4 ≡ none
  Fault body st invalid_sinkhole_ipv6 = io.parse_ipv6 body.sinkhole_ipv6 ≡ none
  Fault body st (other e) =
      (ipv4 : ℕ) × (ipv6 : ℕ) × (io.parse_ipv4 body.sinkhole_ipv4 ≡ some ipv4)
      × (io.parse_ipv6 body.sinkhole_ipv6 ≡ some ipv6)
      × (io.save st.config_path (updated body (given body.upstream_servers) ipv4 ipv6 st.config)
          ≡ some e)

  -- An update is either accepted, or refused for its fault with the state as it was.
  abbrev pub Outcome : ConfigUpdate → AppState m → AppState m × Reply ConfigView → Type 0
  Outcome body st (st', done view) = Applied body st st' × (view ≡ get_config m io st')
  Outcome body st (st', refused e) = (st' ≡ st) × Fault body st e

  store_config-Outcome :
      (body : ConfigUpdate) (st : AppState m) (ipv4 ipv6 : ℕ)
      → is_empty (given body.upstream_servers) ≡ false
      → first_invalid io.parse_socket (given body.upstream_servers) ≡ none
      → io.parse_ipv4 body.sinkhole_ipv4 ≡ some ipv4
      → io.parse_ipv6 body.sinkhole_ipv6 ≡ some ipv6
      → Outcome body st
          (store_config m io (updated body (given body.upstream_servers) ipv4 ipv6 st.config) st)
  unfolding store_config set_servers upstream_addrs
  store_config-Outcome body st ipv4 ipv6 somebody valid four six =
      let cfg = updated body (given body.upstream_servers) ipv4 ipv6 st.config in
      elim (Option-cases (io.save st.config_path cfg)) [
        | inl written ↦
            rw (written, store_config)
              (
                record {
                  servers =
                      first_invalid-parse_addrs io.parse_socket (given body.upstream_servers) valid;
                  some_server = somebody;
                  names = refl;
                  mode = refl;
                  ipv4 = four;
                  ipv6 = six;
                  saved = written;
                  same_web = refl;
                  same_blocklist = refl;
                  same_cache = refl;
                  same_min_ttl = refl;
                  same_max_ttl = refl;
                  same_negative_ttl = refl;
                },
                refl,
              )
        | inr (e, failed) ↦ rw (failed, store_config) (refl, (ipv4, ipv6, four, six, failed))
      ]

  -- An update is refused only for a fault, and its error names it: no server is given, a given server
  -- or an address of the sinkhole does not parse, or the updated configuration cannot be saved; the
  -- state is then as it was. After any other update its servers, all of them and in their order, and its
  -- sinkhole are in use; the saved configuration is the one in use, and the reply shows it; blocklist,
  -- cache and TTLs stay.
  pub set_config-Outcome :
      (body : ConfigUpdate) (st : AppState m) → Outcome body st (set_config m io body st)
  unfolding set_config
  set_config-Outcome body st = elim (Bool-cases (is_empty (given body.upstream_servers))) [
    | inl nobody ↦ rw (nobody, set_config) (refl, nobody)
    | inr somebody ↦
        elim (Option-cases (first_invalid io.parse_socket (given body.upstream_servers))) [
          | inr (s, bad) ↦
              rw (somebody, set_config) (rw bad (refl, first_invalid-In io.parse_socket _ s bad))
          | inl valid ↦ elim (Option-cases (io.parse_ipv4 body.sinkhole_ipv4)) [
            | inl no_four ↦ rw (somebody, set_config) (rw valid (rw no_four (refl, no_four)))
            | inr (ipv4, four) ↦ elim (Option-cases (io.parse_ipv6 body.sinkhole_ipv6)) [
              | inl no_six ↦
                  rw (somebody, set_config) (rw valid (rw four (rw no_six (refl, no_six))))
              | inr (ipv6, six) ↦
                  rw (somebody, set_config)
                    (rw valid (
                      rw four
                        (rw six (store_config-Outcome body st ipv4 ipv6 somebody valid four six))))
            ]
          ]
        ]
  ]

  -- The state after a new blocklist: it is in use and what the reply shows, and its file holds it.
  pub record Listed (body : Text) (st st' : AppState m) (reply : BlocklistResponse) : Type 0 where
    pub blocks :
        (name : Text)
        → (is_blocked st'.blocklist name ≡ true)
          ↔ ((line : Text) × In line (lines body) × (is_blocked (load_line empty line) name ≡ true))
    pub written : io.write_text st.config.web.blocklist_path (to_file_text st'.blocklist) ≡ none
    pub shows : reply ≡ get_blocklist m io st'
    pub count : reply.count ≡ length reply.domains
    pub same_config : st'.config ≡ st.config

  abbrev pub Replaced : Text → AppState m → AppState m × Reply BlocklistResponse → Type 0
  Replaced body st (st', done reply) = Listed body st st' reply
  Replaced body st (st', refused (other e)) =
      (st' ≡ st)
      × (io.write_text st.config.web.blocklist_path (to_file_text (from_text body)) ≡ some e)
  Replaced body st (st', refused no_upstream) = ⊥
  Replaced body st (st', refused (invalid_upstream s)) = ⊥
  Replaced body st (st', refused invalid_sinkhole_ipv4) = ⊥
  Replaced body st (st', refused invalid_sinkhole_ipv6) = ⊥

  -- A new blocklist is refused only when its file cannot be written, with the error of the writing, and
  -- leaves the state as it was. Any other blocks from then on what a line of the text blocks alone, its
  -- file holds it, and the reply has its lines and their number.
  pub set_blocklist-Replaced :
      (body : Text) (st : AppState m) → Replaced body st (set_blocklist m io body st)
  unfolding set_blocklist get_blocklist
  set_blocklist-Replaced body st =
      elim (Option-cases
        (io.write_text st.config.web.blocklist_path (to_file_text (from_text body)))) [
          | inr (e, failed) ↦ rw (failed, set_blocklist) (refl, failed)
          | inl wrote ↦
              let (_, count, _) = to_sorted_vec_lem (from_text body) in
              rw (wrote, set_blocklist)
                (record {
                  blocks = λ name. is_blocked-from_text_iff body name;
                  written = wrote;
                  shows = refl;
                  count = sym count;
                  same_config = refl;
                })
        ]
