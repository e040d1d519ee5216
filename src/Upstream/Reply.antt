-- ===== src/Upstream/Reply.antt =====
-- What `valid_response` lets pass.
use rust_dns.Hickory.{MessageType, Query, Hickory, Message}
use rust_dns.Base.{
  ◌≡◌, inl, inr, refl, ap, true, Option, none, some, first?, arith, Bool-cases, Option-cases, ◌==◌,
  ◌↔◌,
}
use rust_dns.Bytes.{Bytes}
use rust_dns.Upstream.{valid_response, is_response, same_question, valid_messages}

module _ (h : Hickory) where
  -- An answer to the query: a response with its id, whose first question is the query's.
  pub record IsAnswer (query resp : Bytes) : Type 0 where
    pub asked : Message h.Name
    pub said : Message h.Name
    pub query_parses : h.from_vec query ≡ some asked
    pub resp_parses : h.from_vec resp ≡ some said
    pub is_reply : said.metadata.message_type ≡ MessageType.response
    pub same_id : said.metadata.id ≡ asked.metadata.id
    pub question : Query h.Name
    pub echoed : Query h.Name
    pub first_asked : first? asked.queries ≡ some question
    pub first_said : first? said.queries ≡ some echoed
    pub same_name : h.name_eq question.name echoed.name ≡ true
    pub same_type : question.query_type ≡ echoed.query_type
    pub same_class : question.query_class ≡ echoed.query_class

  MessageType-cases : (t : MessageType) → (is_response t ≡ true → t ≡ MessageType.response)
  MessageType-cases MessageType.query e = cc
  MessageType-cases MessageType.response e = refl

  same_question-true :
      (a b : Option (Query h.Name))
      → same_question h a b ≡ true
      → (q : Query h.Name) × (r : Query h.Name) × (a ≡ some q)
        × (b ≡ some r)
        × (h.name_eq q.name r.name ≡ true)
        × (q.query_type ≡ r.query_type)
        × (q.query_class ≡ r.query_class)
  unfolding same_question
  same_question-true (some q) (some r) e =
      (q, r, refl, refl, ground (arith, e), ground (arith, e), ground (arith, e))
  same_question-true (some q) none e = cc
  same_question-true none b e = cc

  valid_response-IsAnswer :
      (query resp : Bytes) → valid_response h query resp ≡ true → IsAnswer query resp
  unfolding valid_response valid_messages
  valid_response-IsAnswer query resp e = elim (Option-cases (h.from_vec query)) [
    | inl bad ↦ absurd (ground (arith, e, bad))
    | inr (q, parsed) ↦ elim (Option-cases (h.from_vec resp)) [
      | inl bad ↦ absurd (ground (arith, e, parsed, bad))
      | inr (r, read) ↦ elim (Bool-cases (is_response r.metadata.message_type)) [
        | inr no_reply ↦ absurd (ground (arith, e, parsed, read, no_reply))
        | inl is_one ↦ elim (Bool-cases (r.metadata.id == q.metadata.id)) [
          | inr other ↦ absurd (ground (arith, e, parsed, read, is_one, other))
          | inl same ↦
              let (question, echoed, a, b, name, type, class) =
                same_question-true (first? q.queries) (first? r.queries)
                  (ground (arith, e, parsed, read, is_one, same)) in
              record {
                asked = q;
                said = r;
                query_parses = parsed;
                resp_parses = read;
                is_reply = MessageType-cases r.metadata.message_type is_one;
                same_id = ground (arith, same);
                question = question;
                echoed = echoed;
                first_asked = a;
                first_said = b;
                same_name = name;
                same_type = type;
                same_class = class;
              }
        ]
      ]
    ]
  ]

  IsAnswer-valid_response :
      (query resp : Bytes) → IsAnswer query resp → valid_response h query resp ≡ true
  unfolding valid_response valid_messages same_question
  IsAnswer-valid_response query resp a =
      let reply : is_response a.said.metadata.message_type ≡ true = ap is_response a.is_reply in
      let id : (a.said.metadata.id == a.asked.metadata.id) ≡ true = ground (arith, a.same_id) in
      let type : (a.question.query_type == a.echoed.query_type) ≡ true =
        ground (arith, a.same_type) in
      let class : (a.question.query_class == a.echoed.query_class) ≡ true =
        ground (arith, a.same_class) in
      rw (a.query_parses, valid_response)
        (rw a.resp_parses
          (rw (reply, id) (rw (a.first_asked, a.first_said) (rw (a.same_name, type, class) refl))))

  -- `valid_response` answers yes exactly for a response with the id of the query whose first question is
  -- the first question of the query, in name, type and class.
  pub valid_response_iff :
      (query resp : Bytes) → (valid_response h query resp ≡ true) ↔ IsAnswer query resp
  valid_response_iff query resp =
      (valid_response-IsAnswer query resp, IsAnswer-valid_response query resp)
