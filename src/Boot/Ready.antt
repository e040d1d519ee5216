-- ===== src/Boot/Ready.antt =====
-- What holds of the server when src/main.rs has started it.
use rust_dns.Boot.Main.{System, LiveServer, listen, load_state, main}
use rust_dns.Base.{
  false, if◌then◌else◌, ◌≡◌, ◌≤◌, inl, inr, refl, sym, ap, ◌∙◌, Bool, true, Option, none, some,
  length, arith, Bool-cases, Option-cases, some-inj, All, ◌&&◌,
}
use rust_dns.Cache.Store.Write.{>>=-eq-some}
use rust_dns.Cache.Store.{open_store}
use rust_dns.Text.Unicode.{Unicode}
use rust_dns.State.{Moka, AppState}
use rust_dns.Cache.Redb.{Redb}
use rust_dns.Config.Atomic.{Toml, Disk, put}
use rust_dns.Boot.{Start, initial_state, load_config}
use rust_dns.Config.{Config}
use rust_dns.Text.{Text}
use rust_dns.Blocklist.File.{from_file, default_blocklist}
use rust_dns.Blocklist.{Blocklist, from_text}
use rust_dns.Boot.Token.{Secret, load_config-Secret}
use rust_dns.Bytes.{Bytes}
use rust_dns.Blocklist.WellFormed.{IsWellFormed, from_text-IsWellFormed}
use rust_dns.Dns.Sockets.{IsShared, spawn_udp, spawn_udp-IsShared}
use rust_dns.Dns.Listen.{worker_count}

module _ ⦃u : Unicode⦄ (m : Moka) (redb : Redb) (toml : Toml) (s : Start) (sys : System) where
  -- A server that runs as it should.
  pub record IsReady (r : LiveServer (AppState m) redb.Db) : Type 0 where
    pub secret : Secret r.state.config.web.admin_token
    pub blocklist : IsWellFormed r.state.blocklist
    pub permits : 1 ≤ r.state.inflight
    pub table : redb.has_table r.store ≡ true
    pub address : s.parse_socket r.state.config.dns.bind ≡ some r.address
    pub sockets : All (IsShared r.address) r.sockets
    pub workers : length r.sockets ≡ worker_count r.state.config.dns.workers sys.parallelism

  read-IsWellFormed :
      (readable : Bool) (content : Text) (bl : Blocklist)
      → (if readable then some (from_text content) else none) ≡ some bl
      → IsWellFormed bl
  read-IsWellFormed true content bl e = rw (some-inj e) at (from_text-IsWellFormed content)
  read-IsWellFormed false content bl e = cc

  from_file-IsWellFormed :
      (writes readable : Bool) (path : Text) (d d' : Disk) (bl : Blocklist)
      → from_file writes readable path d ≡ (d', some bl)
      → IsWellFormed bl
  unfolding from_file
  from_file-IsWellFormed writes readable path d d' bl e = elim (Option-cases (d path)) [
    | inr (s', stored) ↦
        let reads : from_file writes readable path d
            ≡ (d, if readable then some (from_text s') else none) =
          rw (stored, from_file) refl in
        read-IsWellFormed readable s' bl (ap (λ p. p.1) (sym reads ∙ e))
    | inl missing ↦ elim (Bool-cases writes) [
      | inl written ↦
          let makes : from_file writes readable path d ≡ (
            put path (some default_blocklist) d,
            if readable then some (from_text default_blocklist) else none,
          ) =
            rw (missing, from_file) (rw written refl) in
          read-IsWellFormed readable default_blocklist bl (ap (λ p. p.1) (sym makes ∙ e))
      | inr failed ↦ absurd (ground (arith, e, missing, failed))
    ]
  ]

  listen-IsReady :
      (cfg : Config) (state : AppState m) (store : redb.Db) (r : LiveServer (AppState m) redb.Db)
      → state.config ≡ cfg
      → Secret cfg.web.admin_token
      → IsWellFormed state.blocklist
      → 1 ≤ state.inflight
      → redb.has_table store ≡ true
      → listen m redb toml s sys cfg state store ≡ some r
      → IsReady r
  unfolding listen
  listen-IsReady cfg state store r same secret bl permits table e =
      elim (Option-cases (s.parse_socket cfg.dns.bind)) [
        | inl invalid ↦ absurd (ground (arith, e, invalid))
        | inr (addr, valid) ↦
            let p = spawn_udp sys.fails addr cfg.dns.workers sys.parallelism in
            elim (Bool-cases (p.1 && sys.tcp_binds)) [
              | inr failed ↦ absurd (ground (arith, e, valid, failed))
              | inl good ↦
                  let all : p.1 ≡ true = ground (arith, good) in
                  let (shared, count) =
                    spawn_udp-IsShared sys.fails addr cfg.dns.workers sys.parallelism p.0
                      (ap (λ b. (p.0, b)) all) in
                  let live : LiveServer (AppState m) redb.Db = record {
                    config = cfg;
                    state = state;
                    store = store;
                    address = addr;
                    sockets = p.0;
                  } in
                  let made : live ≡ r = some-inj (sym (rw (valid, listen) (rw good refl)) ∙ e) in
                  rw (← made) (record {
                    secret = rw same secret;
                    blocklist = bl;
                    permits = permits;
                    table = table;
                    address = rw same valid;
                    sockets = shared;
                    workers = rw same count;
                  })
            ]
      ]

  open_store-has_table :
      (d store : redb.Db) → open_store redb d ≡ some store → redb.has_table store ≡ true
  unfolding open_store
  open_store-has_table d store e =
      let (w, began, e1) = >>=-eq-some (redb.begin_write d) _ e in
      let (t, made, e2) = >>=-eq-some (redb.open_table w) _ e1 in
      redb.has_table-commit t store e2 ∙ redb.open_table-opens w t made

  load_state-IsReady :
      (path : Text) (cfg : Config) (bl : Blocklist) (build : m.Cache) (created : Option redb.Db)
      (r : LiveServer (AppState m) redb.Db)
      → Secret cfg.web.admin_token
      → IsWellFormed bl
      → load_state m redb toml s sys path cfg bl build created ≡ some r
      → IsReady r
  unfolding load_state initial_state
  load_state-IsReady path cfg bl build none r secret ok_list e = cc
  load_state-IsReady path cfg bl build (some db) r secret ok_list e =
      elim (Option-cases (open_store redb db)) [
        | inl failed ↦ absurd (ground (arith, e, failed))
        | inr (store, made) ↦
            listen-IsReady cfg _ store r refl secret ok_list (omega arith)
              (open_store-has_table db store made) (rw (made, load_state) at e)
      ]

  -- If the read of random bytes gives 32 of them or none: `main` stops on an error, or the server runs
  -- with an admin token that is neither empty nor the legacy one, a well-formed blocklist, at least one
  -- permit, the store's table, and one UDP socket for each worker, each bound to the address with
  -- `SO_REUSEPORT` set.
  pub main-IsReady :
      (path : Text) (build : m.Cache) (created : Option redb.Db) (d d' : Disk)
      (r : LiveServer (AppState m) redb.Db)
      → ((buf : Bytes) → s.urandom ≡ some buf → length buf ≡ 32)
      → main m redb toml s sys path build created d ≡ (d', some r)
      → IsReady r
  unfolding main
  main-IsReady path build created d d' r full e =
      let p = load_config toml s path d in
      elim (Option-cases p.1) [
        | inl unloaded ↦ absurd (ground (arith, e, unloaded))
        | inr (cfg, loaded) ↦
            let secret =
              load_config-Secret toml s path d p.0 cfg full (ap (λ c. (p.0, c)) loaded) in
            let q = from_file s.writes s.readable cfg.web.blocklist_path p.0 in
            elim (Option-cases q.1) [
              | inl unread ↦ absurd (ground (arith, e, loaded, unread))
              | inr (bl, read) ↦
                  let clean =
                    from_file-IsWellFormed s.writes s.readable cfg.web.blocklist_path p.0 q.0 bl
                      (ap (λ b. (q.0, b)) read) in
                  let rest : main m redb toml s sys path build created d
                      ≡ (q.0, load_state m redb toml s sys path cfg bl build created) =
                    rw (loaded, main) (rw read refl) in
                  load_state-IsReady path cfg bl build created r secret clean
                    (ap (λ x. x.1) (sym rest ∙ e))
            ]
      ]
