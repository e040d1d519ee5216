-- ===== src/Upstream/Resolve.antt =====
-- Which reply `resolve` takes, and when it fails.
use rust_dns.Base.{
  ℕ, ◌≡◌, ◌⊎◌, inl, inr, refl, ap, true, false, List, [], ◌∷◌, ◌++◌, All, arith, Bool-cases,
  is_empty, ◌≤◌, ◌<◌, ◌+◌, ◌%◌, ◌∙◌, ◌^◌,
}
use rust_dns.Bytes.{Bytes}
use rust_dns.Cache.{CachedResponse}
use rust_dns.Hickory.{Hickory}
use rust_dns.Result.{Error, ok, err, mismatch, Result-cases, no_servers, unreachable, panic}
use rust_dns.Upstream.{
  SocketAddr, Net, Upstream, query_udp, to_cached, valid_response, resolve_loop, effective_ttl,
  resolve,
}
use rust_dns.Upstream.Ttl.{effective_ttl_bounds, effective_ttl_in_range, effective_ttl-panics}

module _ (h : Hickory) (net : Net) (up : Upstream) (now : ℕ) (query : Bytes) where
  -- A server that gave no reply, or one that is not an answer to the query.
  abbrev pub Rejected : SocketAddr → Type 0
  Rejected server =
      ((e : Error) × (query_udp net server query ≡ err e))
      ⊎ ((wire : Bytes) × (query_udp net server query ≡ ok wire)
          × (valid_response h query wire ≡ false))

  -- The first server whose reply is valid.
  pub record Accepted (servers : List SocketAddr) (wire : Bytes) : Type 0 where
    pub before : List SocketAddr
    pub server : SocketAddr
    pub after : List SocketAddr
    pub split : servers ≡ before ++ (server ∷ after)
    pub rejected : All Rejected before
    pub reply : query_udp net server query ≡ ok wire
    pub valid : valid_response h query wire ≡ true

  Accepted-cons :
      {servers : List SocketAddr} {wire : Bytes} (server : SocketAddr)
      → Rejected server
      → Accepted servers wire
      → Accepted (server ∷ servers) wire
  Accepted-cons server r a = record {
    before = server ∷ a.before;
    server = a.server;
    after = a.after;
    split = ap (λ l. server ∷ l) a.split;
    rejected = (r, a.rejected);
    reply = a.reply;
    valid = a.valid;
  }

  resolve_loop-Accepted :
      (servers : List SocketAddr) (last : Error) (c : CachedResponse)
      → resolve_loop h net up now query servers last ≡ ok c
      → (wire : Bytes) × Accepted servers wire × (to_cached h up now wire ≡ ok c)
  unfolding resolve_loop
  resolve_loop-Accepted [] last c e = cc
  resolve_loop-Accepted (s ∷ servers) last c e = elim (Result-cases (query_udp net s query)) [
    | inl (wire, got) ↦ elim (Bool-cases (valid_response h query wire)) [
      | inl good ↦ (
        wire,
        record {
          before = [];
          server = s;
          after = servers;
          split = refl;
          rejected = tt;
          reply = got;
          valid = good;
        },
        ground (arith, e, got, good),
      )
      | inr bad ↦
          let (w, a, made) =
            resolve_loop-Accepted servers mismatch c (ground (arith, e, got, bad)) in
          (w, Accepted-cons s (inr (wire, got, bad)) a, made)
    ]
    | inr (inl (x, failed)) ↦
        let (w, a, made) = resolve_loop-Accepted servers x c (ground (arith, e, failed)) in
        (w, Accepted-cons s (inl (x, failed)) a, made)
    | inr (inr died) ↦ absurd (ground (arith, e, died))
  ]

  Accepted-resolve_loop :
      (before after : List SocketAddr) (server : SocketAddr) (wire : Bytes) (last : Error)
      → All Rejected before
      → query_udp net server query ≡ ok wire
      → valid_response h query wire ≡ true
      → resolve_loop h net up now query (before ++ (server ∷ after)) last ≡ to_cached h up now wire
  unfolding resolve_loop
  Accepted-resolve_loop [] after server wire last r got good = ground (arith, got, good)
  Accepted-resolve_loop (s ∷ before) after server wire last (inl (x, failed), r) got good =
      ground (arith, failed, Accepted-resolve_loop before after server wire x r got good)
  Accepted-resolve_loop (s ∷ before) after server wire last (inr (w, read, bad), r) got good =
      ground (arith, read, bad, Accepted-resolve_loop before after server wire mismatch r got good)

  Rejected-resolve_loop :
      (servers : List SocketAddr) (last : Error)
      → All Rejected servers
      → (e : Error) × (resolve_loop h net up now query servers last ≡ err e)
  unfolding resolve_loop
  Rejected-resolve_loop [] last r = (last, refl)
  Rejected-resolve_loop (s ∷ servers) last (inl (x, failed), r) =
      let (e, ends) = Rejected-resolve_loop servers x r in (e, ground (arith, failed, ends))
  Rejected-resolve_loop (s ∷ servers) last (inr (w, read, bad), r) =
      let (e, ends) = Rejected-resolve_loop servers mismatch r in
      (e, ground (arith, read, bad, ends))

  -- The entry that is made of an accepted reply.
  pub record Entry (wire : Bytes) (c : CachedResponse) : Type 0 where
    pub same_wire : c.wire ≡ wire
    pub ttl : effective_ttl h up wire ≡ ok c.ttl_secs
    pub expiry : c.expires_unix ≡ (now + c.ttl_secs) % 2 ^ 64

  to_cached-Entry :
      (wire : Bytes) (c : CachedResponse) → to_cached h up now wire ≡ ok c → Entry wire c
  unfolding to_cached
  to_cached-Entry wire c e = elim (Result-cases (effective_ttl h up wire)) [
    | inl (ttl, found) ↦ record {
      same_wire = ground (arith, e, found);
      ttl = ground (arith, e, found);
      expiry = ground (arith, e, found);
    }
    | inr (inl (x, failed)) ↦ absurd (ground (arith, e, failed))
    | inr (inr died) ↦ absurd (ground (arith, e, died))
  ]

  -- An entry that `resolve` returns is made of the reply of the first server whose reply is valid.
  -- Its TTL is the effective one, between the floor and the ceiling, and it expires that much
  -- later, modulo 2^64.
  pub resolve_sound :
      (c : CachedResponse)
      → resolve h net up now query ≡ ok c
      → Accepted up.servers c.wire
        × (effective_ttl h up c.wire ≡ ok c.ttl_secs)
        × (c.expires_unix ≡ (now + c.ttl_secs) % 2 ^ 64)
        × (up.min_ttl ≤ c.ttl_secs)
        × (c.ttl_secs ≤ up.max_ttl)
  unfolding resolve
  resolve_sound c e = elim (Bool-cases (is_empty up.servers)) [
    | inl nobody ↦ absurd (ground (arith, e, nobody))
    | inr somebody ↦
        let (wire, a, made) =
          resolve_loop-Accepted up.servers unreachable c (ground (arith, e, somebody)) in
        let n = to_cached-Entry wire c made in
        let ttl = rw (← n.same_wire) at n.ttl in
        let (lo, hi) = effective_ttl_in_range h up c.wire c.ttl_secs ttl in
        (rw n.same_wire a, ttl, n.expiry, lo, hi)
  ]

  no_empty_split :
      (before after : List SocketAddr) (s : SocketAddr) → is_empty (before ++ (s ∷ after)) ≡ false
  no_empty_split [] after s = refl
  no_empty_split (x ∷ before) after s = refl

  -- If the floor is not above the ceiling, and a server gives a valid reply while those before it
  -- are rejected, then `resolve` returns that reply.
  pub resolve_complete :
      (wire : Bytes)
      → up.min_ttl ≤ up.max_ttl
      → Accepted up.servers wire
      → (c : CachedResponse) × (resolve h net up now query ≡ ok c) × (c.wire ≡ wire)
  unfolding resolve to_cached
  resolve_complete wire range a =
      let (ttl, found, _, _) = effective_ttl_bounds h up wire range in
      let some_server : is_empty up.servers ≡ false =
        ap is_empty a.split ∙ no_empty_split a.before a.after a.server in
      let at_server =
        Accepted-resolve_loop a.before a.after a.server wire unreachable a.rejected a.reply
          a.valid in
      let loop = ap (λ l. resolve_loop h net up now query l unreachable) a.split in
      (
        record { wire = wire; ttl_secs = ttl; expires_unix = (now + ttl) % 2 ^ 64 },
        ground (arith, some_server, loop, at_server, found),
        refl,
      )

  -- If every server is rejected, or there is none, `resolve` fails with an error.
  pub resolve_fails : All Rejected up.servers → (e : Error) × (resolve h net up now query ≡ err e)
  unfolding resolve
  resolve_fails r = elim (Bool-cases (is_empty up.servers)) [
    | inl nobody ↦ (no_servers, ground (arith, nobody))
    | inr somebody ↦
        let (e, ends) = Rejected-resolve_loop up.servers unreachable r in
        (e, ground (arith, somebody, ends))
  ]

  -- With a floor above the ceiling, a query for which some server gives the first valid reply does
  -- not return: it panics.
  pub resolve-panics :
      (wire : Bytes)
      → up.max_ttl < up.min_ttl
      → Accepted up.servers wire
      → resolve h net up now query ≡ panic
  unfolding resolve to_cached
  resolve-panics wire range a =
      let some_server : is_empty up.servers ≡ false =
        ap is_empty a.split ∙ no_empty_split a.before a.after a.server in
      let at_server =
        Accepted-resolve_loop a.before a.after a.server wire unreachable a.rejected a.reply
          a.valid in
      let loop = ap (λ l. resolve_loop h net up now query l unreachable) a.split in
      ground (arith, some_server, loop, at_server, effective_ttl-panics h up wire range)
