-- ===== src/Config.antt =====
-- src/config.rs: the configuration, its defaults, and its addresses.
pub mod Atomic
pub mod Toy
mod Tests
use rust_dns.Base.{ℕ, ◌*◌, Bool, true, Option, none, some, List, [], ◌∷◌}
use rust_dns.Text.{Text, text}
use rust_dns.Upstream.{SocketAddr, UpstreamConfig}

pub record QlogConfig : Type 0 where
  pub enabled : Bool
  pub dir : Text
  pub max_bytes : ℕ
  pub flush_secs : ℕ
  pub flush_rows : ℕ
  pub log_client_ip : Bool
  pub mem_limit_mb : ℕ

abbrev pub default_qlog : QlogConfig
default_qlog = record {
  enabled = true;
  dir = text "logs";
  max_bytes = 2 * 1024 * 1024 * 1024;
  flush_secs = 5;
  flush_rows = 10_000;
  log_client_ip = true;
  mem_limit_mb = 128;
}

-- An IP address is a number.
pub record DnsConfig : Type 0 where
  pub bind : Text
  pub workers : ℕ
  pub sinkhole_mode : Text
  pub sinkhole_ipv4 : ℕ
  pub sinkhole_ipv6 : ℕ
  pub sinkhole_ttl : ℕ
  pub max_inflight : ℕ

pub record CacheConfig : Type 0 where
  pub max_entries : ℕ
  pub db_path : Text
  pub flush_ms : ℕ
  pub purge_interval_secs : ℕ
  pub min_ttl : ℕ
  pub max_ttl : ℕ
  pub negative_ttl : ℕ

pub record WebConfig : Type 0 where
  pub bind : Text
  pub admin_token : Text
  pub blocklist_path : Text

pub record Config : Type 0 where
  pub dns : DnsConfig
  pub upstream : UpstreamConfig
  pub cache : CacheConfig
  pub web : WebConfig
  pub qlog : QlogConfig

abbrev pub default_max_inflight : ℕ
default_max_inflight = 8192

abbrev pub default_db_path : Text
default_db_path = text "cache.redb"

abbrev pub default_flush_ms : ℕ
default_flush_ms = 500

abbrev pub default_purge_interval_secs : ℕ
default_purge_interval_secs = 300

abbrev pub default_config : Config
default_config = record {
  dns = record {
    bind = text "0.0.0.0:53";
    workers = 0;
    sinkhole_mode = text "zero_ip";
    sinkhole_ipv4 = 0;
    sinkhole_ipv6 = 0;
    sinkhole_ttl = 60;
    max_inflight = default_max_inflight;
  };
  upstream = record {
    servers = text "1.1.1.1:53" ∷ text "8.8.8.8:53" ∷ [];
    timeout_ms = 2000;
    max_concurrent = 256;
    max_qps = 2000;
  };
  cache = record {
    max_entries = 500_000;
    db_path = text "cache.redb";
    flush_ms = 500;
    purge_interval_secs = 300;
    min_ttl = 30;
    max_ttl = 86_400;
    negative_ttl = 60;
  };
  web = record {
    bind = text "127.0.0.1:8080";
    admin_token = [];
    blocklist_path = text "blocklist.txt";
  };
  qlog = default_qlog;
}

-- `filter_map(|s| s.parse().ok())`; `parse` is the standard library's parser of socket addresses.
unfoldable pub parse_addrs : (Text → Option SocketAddr) → List Text → List SocketAddr
parse_addrs parse [] = []
parse_addrs parse (s ∷ ss) = elim (parse s) [
  | none ↦ parse_addrs parse ss
  | some a ↦ a ∷ parse_addrs parse ss
]

unfoldable pub upstream_addrs : (Text → Option SocketAddr) → Config → List SocketAddr
unfolding parse_addrs
upstream_addrs parse cfg = parse_addrs parse cfg.upstream.servers
