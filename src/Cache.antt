-- ===== src/Cache.antt =====
-- src/cache.rs: the keys and values of the cache, their life span in RAM, and their bytes on disk.
pub mod Codec
pub mod Redb
pub mod Store
pub mod Writer
mod Tests
use rust_dns.Base.{
  ℕ, ◌+◌, ◌*◌, ◌^◌, ◌<◌, ◌≡◌, true, false, Option, none, some, List, [], ◌∷◌, ◌++◌, length, take,
  drop, max, ltb, All, if◌then◌else◌,
}
use rust_dns.Bytes.{Bytes, IsByte, to_be_bytes, from_be_bytes}
use rust_dns.Text.{Text}
use rust_dns.Text.Utf8.{as_bytes, from_utf8, IsScalar}
use mathlib.Core.Option

pub record CacheKey : Type 0 where
  pub name : Text
  pub rtype : ℕ

pub record CachedResponse : Type 0 where
  pub wire : Bytes
  pub ttl_secs : ℕ
  pub expires_unix : ℕ

-- What the types of the fields say: a `String`, a `u16`; a `Vec<u8>`, a `u32`, a `u64`.
pub record IsKey (k : CacheKey) : Type 0 where
  pub name_scalar : All IsScalar k.name
  pub rtype_u16 : k.rtype < 2 ^ 16

pub record IsResponse (v : CachedResponse) : Type 0 where
  pub wire_bytes : All IsByte v.wire
  pub ttl_u32 : v.ttl_secs < 2 ^ 32
  pub expires_u64 : v.expires_unix < 2 ^ 64

-- `TtlExpiry::expire_after_create`: the seconds that an entry lives in RAM.
unfoldable pub expire_after_create : CachedResponse → Option ℕ
expire_after_create v = some (max v.ttl_secs 1)

unfoldable pub enc_key : CacheKey → Bytes
enc_key k = to_be_bytes 2 k.rtype ++ as_bytes k.name

-- `b[0]` and `b[1]` are the first two bytes.
unfoldable pub dec_key : Bytes → Option CacheKey
dec_key b =
    if ltb (length b) 2
    then none
    else Option.map (λ s. record { name = s; rtype = from_be_bytes (take 2 b) })
        (from_utf8 (drop 2 b))

unfoldable pub enc_val : CachedResponse → Bytes
enc_val v = to_be_bytes 8 v.expires_unix ++ (to_be_bytes 4 v.ttl_secs ++ v.wire)

unfoldable pub dec_val : Bytes → Option CachedResponse
dec_val b =
    if ltb (length b) 12
    then none
    else some (record {
      wire = drop 12 b;
      ttl_secs = from_be_bytes (take 4 (drop 8 b));
      expires_unix = from_be_bytes (take 8 b);
    })
