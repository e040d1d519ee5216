-- ===== src/Dns/Sinkhole.antt =====
-- What a client reads in the reply to a blocked query.
use rust_dns.Base.{ℕ, List, ◌≡◌, some, [], ◌∷◌, false, true, refl, arith, ◌==◌}
use rust_dns.Hickory.{
  Hickory, Message, Query, Answer, MessageType, nx_domain, type_a, no_error, RData, type_aaaa,
}
use rust_dns.Config.{DnsConfig}
use rust_dns.Dns.{blocked_message, build_blocked, with_code, base_response}
use rust_dns.Text.{text, equal, equal_iff}
use rust_dns.Bytes.{Bytes}

module _ (h : Hickory) (request : Message h.Name) (query : Query h.Name) (dns : DnsConfig) where
  -- The answers and the code of a reply, and that it is one, to this question.
  pub record Says (msg : Message h.Name) (code : ℕ) (answers : List (Answer h.Name)) : Type 0 where
    pub same_id : msg.metadata.id ≡ request.metadata.id
    pub is_reply : msg.metadata.message_type ≡ MessageType.response
    pub same_question : msg.queries ≡ query ∷ []
    pub code_is : msg.metadata.response_code ≡ code
    pub answers_are : msg.answers ≡ answers

  -- The five cases of a sinkhole's reply.
  pub record Sinkhole (msg : Message h.Name) : Type 0 where
    pub nxdomain : dns.sinkhole_mode ≡ text "nxdomain" → Says msg nx_domain []
    pub address_a :
        ¬ (dns.sinkhole_mode ≡ text "nxdomain")
        → query.query_type ≡ type_a
        → Says msg no_error (
            (record {
              name = query.name;
              ttl = dns.sinkhole_ttl;
              rdata = RData.a dns.sinkhole_ipv4;
            })
            ∷ [])
    pub address_aaaa :
        ¬ (dns.sinkhole_mode ≡ text "nxdomain")
        → query.query_type ≡ type_aaaa
        → Says msg no_error (
            (record {
              name = query.name;
              ttl = dns.sinkhole_ttl;
              rdata = RData.aaaa dns.sinkhole_ipv6;
            })
            ∷ [])
    pub nothing :
        ¬ (dns.sinkhole_mode ≡ text "nxdomain")
        → ¬ (query.query_type ≡ type_a)
        → ¬ (query.query_type ≡ type_aaaa)
        → Says msg no_error []

  abbrev chosen : ℕ → List (Answer h.Name) → Message h.Name
  chosen code answers = record (with_code h code (base_response h request query)) {
    answers = answers;
  }

  chosen-Says :
      (code : ℕ) (answers : List (Answer h.Name)) → Says (chosen code answers) code answers
  unfolding base_response
  chosen-Says code answers = record {
    same_id = refl;
    is_reply = refl;
    same_question = refl;
    code_is = refl;
    answers_are = refl;
  }

  not_nx :
      ¬ (dns.sinkhole_mode ≡ text "nxdomain") → equal dns.sinkhole_mode (text "nxdomain") ≡ false
  not_nx n = ground (arith, equal_iff dns.sinkhole_mode (text "nxdomain"), n)

  pub blocked_message-Sinkhole : Sinkhole (blocked_message h request query dns)
  unfolding blocked_message base_response
  blocked_message-Sinkhole = record {
    nxdomain = λ mode.
        let on : equal dns.sinkhole_mode (text "nxdomain") ≡ true =
          ground (arith, equal_iff dns.sinkhole_mode (text "nxdomain"), mode) in
        rw (on, blocked_message) (chosen-Says nx_domain []);
    address_a = λ n t.
        let is_a : (query.query_type == type_a) ≡ true = ground (arith, t) in
        rw (not_nx n, blocked_message) (rw is_a (chosen-Says no_error _));
    address_aaaa = λ n t.
        let not_a : (query.query_type == type_a) ≡ false = ground (arith, t) in
        let is_aaaa : (query.query_type == type_aaaa) ≡ true = ground (arith, t) in
        rw (not_nx n, blocked_message) (rw (not_a, is_aaaa) (chosen-Says no_error _));
    nothing = λ n na naaaa.
        let not_a : (query.query_type == type_a) ≡ false = ground (arith, na) in
        let not_aaaa : (query.query_type == type_aaaa) ≡ false = ground (arith, naaaa) in
        rw (not_nx n, blocked_message) (rw (not_a, not_aaaa) (chosen-Says no_error []));
  }

  -- A reply to a blocked query that can be encoded decodes to the sinkhole's message: NXDOMAIN without
  -- answers in the mode "nxdomain", and in any other mode the configured address for A and AAAA and no
  -- answer for the other types.
  pub build_blocked-Sinkhole :
      (b : Bytes)
      → h.to_vec (blocked_message h request query dns) ≡ some b
      → (msg : Message h.Name) × (h.from_vec (build_blocked h request query dns) ≡ some msg)
        × Sinkhole msg
  unfolding build_blocked
  build_blocked-Sinkhole b e = (
    blocked_message h request query dns,
    rw e (h.from_vec-to_vec _ b e),
    blocked_message-Sinkhole,
  )
