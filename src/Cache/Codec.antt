-- ===== src/Cache/Codec.antt =====
-- The bytes of keys and values are read back as what they were written from, and only those.
use rust_dns.Base.{
  ℕ, ◌≡◌, ap, ◌∙◌, some, ◌++◌, length, take, drop, ltb, arith, length-append, take_prefix,
  drop_prefix, append_assoc, false, sym, All, drop-drop, take-append-drop, Bool-cases, inl, inr,
  All-take, All-drop, length-take, length-drop, Option-cases,
}
use rust_dns.Bytes.{
  Bytes, to_be_bytes, length-to_be_bytes, from_be_bytes-to_be_bytes, IsByte, from_be_bytes,
  to_be_bytes-from_be_bytes, from_be_bytes-lt,
}
use rust_dns.Text.Utf8.{as_bytes, from_utf8-as_bytes, from_utf8, as_bytes-from_utf8}
use rust_dns.Cache.{CacheKey, CachedResponse, IsKey, IsResponse, enc_key, dec_key, enc_val, dec_val}

-- Cutting at the length of the first part.
take_at : (n : ℕ) (xs ys : Bytes) → length xs ≡ n → take n (xs ++ ys) ≡ xs
take_at n xs ys e = rw (← e) (take_prefix xs ys)

drop_at : (n : ℕ) (xs ys : Bytes) → length xs ≡ n → drop n (xs ++ ys) ≡ ys
drop_at n xs ys e = rw (← e) (drop_prefix xs ys)

-- The three fields of a stored value, by their places.
module _ (v : CachedResponse) where
  abbrev expires_bytes : Bytes
  expires_bytes = to_be_bytes 8 v.expires_unix

  abbrev ttl_bytes : Bytes
  ttl_bytes = to_be_bytes 4 v.ttl_secs

  expires_at : take 8 (enc_val v) ≡ expires_bytes
  unfolding enc_val
  expires_at = take_at 8 expires_bytes (ttl_bytes ++ v.wire) (length-to_be_bytes 8 v.expires_unix)

  ttl_at : take 4 (drop 8 (enc_val v)) ≡ ttl_bytes
  unfolding enc_val
  ttl_at =
      ap (take 4)
        (drop_at 8 expires_bytes (ttl_bytes ++ v.wire) (length-to_be_bytes 8 v.expires_unix))
      ∙ take_at 4 ttl_bytes v.wire (length-to_be_bytes 4 v.ttl_secs)

  header_length : length (expires_bytes ++ ttl_bytes) ≡ 12
  header_length = omega (
    arith,
    length-append expires_bytes ttl_bytes,
    length-to_be_bytes 8 v.expires_unix,
    length-to_be_bytes 4 v.ttl_secs,
  )

  wire_at : drop 12 (enc_val v) ≡ v.wire
  unfolding enc_val
  wire_at =
      rw (← append_assoc expires_bytes ttl_bytes v.wire)
        (drop_at 12 (expires_bytes ++ ttl_bytes) v.wire header_length)

  length-enc_val : ltb (length (enc_val v)) 12 ≡ false
  unfolding enc_val
  length-enc_val =
      rw (← append_assoc expires_bytes ttl_bytes v.wire)
        (ground (arith, length-append (expires_bytes ++ ttl_bytes) v.wire, header_length))

-- A value whose wire is bytes and whose numbers fit in 32 and 64 bits is decoded from its bytes as
-- it was.
pub dec_val-enc_val : (v : CachedResponse) → IsResponse v → dec_val (enc_val v) ≡ some v
unfolding dec_val
dec_val-enc_val v h = ground (
  arith,
  length-enc_val v,
  wire_at v,
  ttl_at v,
  expires_at v,
  from_be_bytes-to_be_bytes 4 v.ttl_secs,
  from_be_bytes-to_be_bytes 8 v.expires_unix,
)

-- A key whose name is Unicode text and whose type fits in 16 bits is decoded from its bytes as it
-- was.
pub dec_key-enc_key : (k : CacheKey) → IsKey k → dec_key (enc_key k) ≡ some k
unfolding dec_key enc_key
dec_key-enc_key k h =
    let prefix = to_be_bytes 2 k.rtype in
    let rest = as_bytes k.name in
    ground (
      arith,
      take_at 2 prefix rest (length-to_be_bytes 2 k.rtype),
      drop_at 2 prefix rest (length-to_be_bytes 2 k.rtype),
      length-append prefix rest,
      length-to_be_bytes 2 k.rtype,
      from_be_bytes-to_be_bytes 2 k.rtype,
      from_utf8-as_bytes k.name,
    )

-- Two keys with the same bytes are one key.
pub enc_key_injective : (j k : CacheKey) → IsKey j → IsKey k → enc_key j ≡ enc_key k → j ≡ k
enc_key_injective j k hj hk e = cc (dec_key-enc_key j hj, dec_key-enc_key k hk)

-- The bytes at the places of the three fields, put together again.
regroup : (b : Bytes) → take 8 b ++ (take 4 (drop 8 b) ++ drop 12 b) ≡ b
regroup b =
    ap (λ r. take 8 b ++ r)
      (ap (λ r. take 4 (drop 8 b) ++ r) (sym (drop-drop 8 4 b)) ∙ take-append-drop 4 (drop 8 b))
    ∙ take-append-drop 8 b

-- Bytes that decode to a value are those that the value encodes to, and the value is bytes with
-- numbers that fit in 32 and 64 bits.
pub enc_val-dec_val :
    (b : Bytes) (v : CachedResponse)
    → All IsByte b
    → dec_val b ≡ some v
    → (enc_val v ≡ b) × IsResponse v
unfolding dec_val enc_val
enc_val-dec_val b v bytes h = elim (Bool-cases (ltb (length b) 12)) [
  | inl short ↦ absurd (ground arith)
  | inr long ↦
      let expires : Bytes = take 8 b in
      let ttl : Bytes = take 4 (drop 8 b) in
      let expires_bytes : All IsByte expires = All-take IsByte 8 b bytes in
      let ttl_bytes : All IsByte ttl = All-take IsByte 4 (drop 8 b) (All-drop IsByte 8 b bytes) in
      let le : length expires ≡ 8 = ground (arith, length-take 8 b) in
      let lt : length ttl ≡ 4 = ground (arith, length-take 4 (drop 8 b), length-drop 8 b) in
      let we : to_be_bytes 8 (from_be_bytes expires) ≡ expires =
        rw le at (to_be_bytes-from_be_bytes expires expires_bytes) in
      let wt : to_be_bytes 4 (from_be_bytes ttl) ≡ ttl =
        rw lt at (to_be_bytes-from_be_bytes ttl ttl_bytes) in
      let parts : v ≡ record {
        wire = drop 12 b;
        ttl_secs = from_be_bytes ttl;
        expires_unix = from_be_bytes expires;
      } =
        ground arith in
      rw parts (
        rw (we, wt) (regroup b),
        record {
          wire_bytes = All-drop IsByte 12 b bytes;
          ttl_u32 = ground (arith, lt, from_be_bytes-lt ttl ttl_bytes);
          expires_u64 = ground (arith, le, from_be_bytes-lt expires expires_bytes);
        },
      )
]

-- Bytes that decode to a key are those that the key encodes to, and the key is Unicode text with a
-- type that fits in 16 bits.
pub enc_key-dec_key :
    (b : Bytes) (k : CacheKey) → All IsByte b → dec_key b ≡ some k → (enc_key k ≡ b) × IsKey k
unfolding dec_key enc_key
enc_key-dec_key b k bytes h = elim (Bool-cases (ltb (length b) 2)) [
  | inl short ↦ absurd (ground arith)
  | inr long ↦ elim (Option-cases (from_utf8 (drop 2 b))) [
    | inl e ↦ absurd (ground arith)
    | inr (s, e) ↦
        let prefix : Bytes = take 2 b in
        let prefix_bytes : All IsByte prefix = All-take IsByte 2 b bytes in
        let two : length prefix ≡ 2 = ground (arith, length-take 2 b) in
        let written : to_be_bytes 2 (from_be_bytes prefix) ≡ prefix =
          rw two at (to_be_bytes-from_be_bytes prefix prefix_bytes) in
        let (rest, scalars) = as_bytes-from_utf8 (drop 2 b) s e in
        let parts : k ≡ record { name = s; rtype = from_be_bytes prefix } = ground arith in
        rw parts (
          rw (written, rest) (take-append-drop 2 b),
          record {
            name_scalar = scalars;
            rtype_u16 = ground (arith, two, from_be_bytes-lt prefix prefix_bytes);
          },
        )
  ]
]
