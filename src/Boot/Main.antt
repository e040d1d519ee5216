-- ===== src/Boot/Main.antt =====
-- src/main.rs: `main`, up to the wait for the end. Each step that fails ends it.
use rust_dns.Base.{ℕ, Bool, Option, none, some, List, if◌then◌else◌, ◌&&◌}
use rust_dns.Cache.Store.{open_store, read_all_valid}
use rust_dns.Text.{Text, text}
use rust_dns.Dns.Sockets.{Call, UdpSocket, spawn_udp}
use rust_dns.Config.{Config}
use rust_dns.Text.Unicode.{Unicode}
use rust_dns.Upstream.{SocketAddr}
use rust_dns.State.{Moka, AppState}
use rust_dns.Cache.Redb.{Redb}
use rust_dns.Config.Atomic.{Toml, Disk}
use rust_dns.Boot.{Start, load_config, initial_state}
use rust_dns.Blocklist.{Blocklist}
use rust_dns.Blocklist.File.{from_file}

-- The first argument of the command line, else `RUST_DNS_CONFIG`, else `config.toml`.
unfoldable pub config_path : Option Text → Option Text → Text
config_path (some arg) env = arg
config_path none (some path) = path
config_path none none = text "config.toml"

-- What a start meets in the system: the sockets' calls, the processors, whether TCP can be bound.
pub record System : Type 0 where
  pub fails : ℕ → Call → Bool
  pub parallelism : Option ℕ
  pub tcp_binds : Bool

-- A server that runs: its state, its store, its UDP sockets.
pub record LiveServer (S Db : Type 0) : Type 0 where
  pub config : Config
  pub state : S
  pub store : Db
  pub address : SocketAddr
  pub sockets : List UdpSocket

module _ ⦃u : Unicode⦄ (m : Moka) (redb : Redb) (toml : Toml) (s : Start) (sys : System) where
  -- The listeners, once the state is there.
  unfoldable pub listen : Config → AppState m → redb.Db → Option (LiveServer (AppState m) redb.Db)
  unfolding spawn_udp
  listen cfg state store = elim (s.parse_socket cfg.dns.bind) [
    | none ↦ none
    | some addr ↦
        let (sockets, all) = spawn_udp sys.fails addr cfg.dns.workers sys.parallelism in
        if all && sys.tcp_binds
        then some (record {
          config = cfg;
          state = state;
          store = store;
          address = addr;
          sockets = sockets;
        })
        else none
  ]

  -- The store, `none` if its file cannot be opened, and the state. A store that cannot be read is
  -- passed over.
  unfoldable pub load_state :
      Text
      → Config
      → Blocklist
      → m.Cache
      → Option redb.Db
      → Option (LiveServer (AppState m) redb.Db)
  unfolding listen
  load_state path cfg bl build created = elim created [
    | none ↦ none
    | some db ↦ elim (open_store redb db) [
      | none ↦ none
      | some store ↦
          listen cfg (initial_state m s path cfg bl build (read_all_valid redb s.now store)) store
    ]
  ]

  unfoldable pub main :
      Text → m.Cache → Option redb.Db → Disk → Disk × Option (LiveServer (AppState m) redb.Db)
  unfolding load_state
  main path build created d =
      let (d1, loaded) = load_config toml s path d in
      elim loaded [
        | none ↦ (d1, none)
        | some cfg ↦
            let (d2, read) = from_file s.writes s.readable cfg.web.blocklist_path d1 in
            elim read [ none ↦ (d2, none) | some bl ↦ (d2, load_state path cfg bl build created) ]
      ]
