-- ===== src/Hickory.antt =====
-- The DNS messages of hickory_proto, as far as the sources read or set them, and its codec, which is
-- a parameter: names are compared and shown by it, and two facts say what the sources rely on.
pub mod Toy
use rust_dns.Base.{ℕ, ◌≤◌, ◌≡◌, Bool, Option, some, List, length, take}
use rust_dns.Bytes.{Bytes, from_be_bytes}
use rust_dns.Text.{Text}

pub data MessageType : Type 0 where
  query response : MessageType

-- A record type by its number; A is 1 and AAAA is 28.
abbrev pub type_a : ℕ
type_a = 1

abbrev pub type_aaaa : ℕ
type_aaaa = 28

abbrev pub no_error : ℕ
no_error = 0

abbrev pub serv_fail : ℕ
serv_fail = 2

abbrev pub nx_domain : ℕ
nx_domain = 3

pub record Metadata : Type 0 where
  pub id : ℕ
  pub message_type : MessageType
  pub op_code : ℕ
  pub recursion_desired : Bool
  pub recursion_available : Bool
  pub response_code : ℕ

module _ {ℓ} (Name : Type ℓ) where
  pub record Query : Type ℓ where
    pub name : Name
    pub query_type : ℕ
    pub query_class : ℕ

  -- The data of an answer: an IPv4 or IPv6 address as a number, or anything else.
  pub data RData : Type ℓ where
    a : ℕ → RData
    aaaa : ℕ → RData
    other : Bytes → RData

  pub record Answer : Type ℓ where
    pub name : Name
    pub ttl : ℕ
    pub rdata : RData

  pub record Message : Type ℓ where
    pub metadata : Metadata
    pub queries : List Query
    pub answers : List Answer

pub record Hickory : Type 1 where
  pub Name : Type 0
  pub name_eq : Name → Name → Bool
  pub name_text : Name → Text
  pub type_text : ℕ → Text
  pub from_vec : Bytes → Option (Message Name)
  pub to_vec : Message Name → Option Bytes
  -- The transaction id is the first two bytes of a message.
  pub id_first :
      (b : Bytes) (m : Message Name)
      → from_vec b ≡ some m
      → (2 ≤ length b) × (m.metadata.id ≡ from_be_bytes (take 2 b))
  -- What was encoded is decoded to the same message.
  pub from_vec-to_vec : (m : Message Name) (b : Bytes) → to_vec m ≡ some b → from_vec b ≡ some m
