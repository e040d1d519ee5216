-- ===== src/Dns/Sockets.antt =====
-- src/dns.rs: how the listeners are started. Which calls of the system fail is a parameter.
use rust_dns.Cache.Store.{◌>>=◌}
use rust_dns.Cache.Store.Write.{>>=-eq-some}
use rust_dns.Base.{
  length-append, ℕ, zero, suc, ◌+◌, ◌≡◌, inl, inr, refl, ap, Bool, true, false, Option, none, some,
  List, [], ◌∷◌, ◌++◌, length, arith, Option-cases, some-inj, if◌then◌else◌, All, All-append,
}
use rust_dns.Upstream.{SocketAddr, is_ipv4}
use rust_dns.Dns.Listen.{worker_count}
use rust_dns.Text.{Text}

pub data Domain : Type 0 where
  ipv4 ipv6 : Domain

pub record UdpSocket : Type 0 where
  pub domain : Domain
  pub reuse_address : Bool
  pub reuse_port : Bool
  pub nonblocking : Bool
  pub bound : Option SocketAddr

-- The calls that can fail.
pub data Call : Type 0 where
  new_socket set_reuse_address set_reuse_port set_nonblocking bind_socket from_std : Call

abbrev pub opened : Domain → UdpSocket
opened domain = record {
  domain = domain;
  reuse_address = false;
  reuse_port = false;
  nonblocking = false;
  bound = none;
}

abbrev pub call : Bool → UdpSocket → Option UdpSocket
call fails s = if fails then none else some s

unfoldable pub domain_of : SocketAddr → Domain
unfolding is_ipv4
domain_of addr = if is_ipv4 addr then ipv4 else ipv6

unfoldable pub reuseport_udp : (Call → Bool) → SocketAddr → Option UdpSocket
unfolding domain_of
reuseport_udp fails addr = do
  s ← call (fails new_socket) (opened (domain_of addr))
  s1 ← call (fails set_reuse_address) (record s { reuse_address = true })
  s2 ← call (fails set_reuse_port) (record s1 { reuse_port = true })
  s3 ← call (fails set_nonblocking) (record s2 { nonblocking = true })
  s4 ← call (fails bind_socket) (record s3 { bound = some addr })
  call (fails from_std) s4

-- The loop of `spawn_udp`: `fails n` is what fails for the n-th socket. A failure ends it, and leaves
-- the workers that run.
unfoldable pub spawn_workers :
    (ℕ → Call → Bool) → SocketAddr → ℕ → List UdpSocket → List UdpSocket × Bool
spawn_workers fails addr zero workers = (workers, true)
spawn_workers fails addr (suc n) workers = elim (reuseport_udp (fails n) addr) [
  | none ↦ (workers, false)
  | some s ↦ spawn_workers fails addr n (workers ++ (s ∷ []))
]

unfoldable pub spawn_udp : (ℕ → Call → Bool) → SocketAddr → ℕ → Option ℕ → List UdpSocket × Bool
unfolding spawn_workers worker_count
spawn_udp fails addr workers parallelism =
    spawn_workers fails addr (worker_count workers parallelism) []

-- The loop of `spawn_tcp`: each connection that is accepted has a task, and an error is passed over.
unfoldable pub accept_loop {ℓ} :
    {Stream : Type ℓ} → List (Option (Stream × Text)) → List (Stream × Text)
accept_loop [] = []
accept_loop (none ∷ accepts) = accept_loop accepts
accept_loop (some c ∷ accepts) = c ∷ accept_loop accepts

-- A worker's socket as it should be: bound to the address, in a way that others can be too.
pub record IsShared (addr : SocketAddr) (s : UdpSocket) : Type 0 where
  pub domain : s.domain ≡ domain_of addr
  pub bound : s.bound ≡ some addr
  pub reuse_address : s.reuse_address ≡ true
  pub reuse_port : s.reuse_port ≡ true
  pub nonblocking : s.nonblocking ≡ true

call-eq_some : (fails : Bool) (s t : UdpSocket) → call fails s ≡ some t → s ≡ t
call-eq_some true s t e = cc
call-eq_some false s t e = some-inj e

reuseport_udp-IsShared :
    (fails : Call → Bool) (addr : SocketAddr) (s : UdpSocket)
    → reuseport_udp fails addr ≡ some s
    → IsShared addr s
unfolding reuseport_udp
reuseport_udp-IsShared fails addr s e =
    let (s0, made, e1) = >>=-eq-some (call (fails new_socket) _) _ e in
    let (s1, address, e2) = >>=-eq-some (call (fails set_reuse_address) _) _ e1 in
    let (s2, port, e3) = >>=-eq-some (call (fails set_reuse_port) _) _ e2 in
    let (s3, waits, e4) = >>=-eq-some (call (fails set_nonblocking) _) _ e3 in
    let (s4, binds, ends) = >>=-eq-some (call (fails bind_socket) _) _ e4 in
    rw (← call-eq_some (fails from_std) _ _ ends, ← call-eq_some (fails bind_socket) _ _ binds)
      (rw
        (
          ← call-eq_some (fails set_nonblocking) _ _ waits,
          ← call-eq_some (fails set_reuse_port) _ _ port,
        )
        (rw
          (
            ← call-eq_some (fails set_reuse_address) _ _ address,
            ← call-eq_some (fails new_socket) _ _ made,
          )
          (record {
            domain = refl;
            bound = refl;
            reuse_address = refl;
            reuse_port = refl;
            nonblocking = refl;
          })))

spawn_workers-IsShared :
    (fails : ℕ → Call → Bool) (addr : SocketAddr) (n : ℕ) (before workers : List UdpSocket)
    → All (IsShared addr) before
    → spawn_workers fails addr n before ≡ (workers, true)
    → All (IsShared addr) workers × (length workers ≡ length before + n)
unfolding spawn_workers
spawn_workers-IsShared fails addr zero before workers all e =
    let same : before ≡ workers = ap (λ p. p.0) e in rw (← same) (all, omega arith)
spawn_workers-IsShared fails addr (suc n) before workers all e =
    elim (Option-cases (reuseport_udp (fails n) addr)) [
      | inl failed ↦ absurd (ground (arith, e, failed))
      | inr (s, made) ↦
          let (shared, count) =
            spawn_workers-IsShared fails addr n (before ++ (s ∷ [])) workers
              (All-append (IsShared addr) before (s ∷ []) all
                (reuseport_udp-IsShared (fails n) addr s made, tt))
              (rw (made, spawn_workers) at e) in
          (shared, omega (arith, count, length-append before (s ∷ [])))
    ]

-- If `spawn_udp` succeeds, there is a socket for each worker, each of them bound to the address, with
-- `SO_REUSEPORT` set, so that all of them can be.
pub spawn_udp-IsShared :
    (fails : ℕ → Call → Bool) (addr : SocketAddr) (workers : ℕ) (parallelism : Option ℕ)
    (sockets : List UdpSocket)
    → spawn_udp fails addr workers parallelism ≡ (sockets, true)
    → All (IsShared addr) sockets × (length sockets ≡ worker_count workers parallelism)
unfolding spawn_udp
spawn_udp-IsShared fails addr workers parallelism sockets e =
    let (shared, count) =
      spawn_workers-IsShared fails addr (worker_count workers parallelism) [] sockets tt e in
    (shared, omega (arith, count))
