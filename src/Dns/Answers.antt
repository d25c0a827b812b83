-- ===== src/Dns/Answers.antt =====
-- What the answers to DNS queries depend on.
use httptap.Shared.{
  Option, none, ◌==◌, ◌∷◌, ◌≡◌, refl, ap, ◌∙◌, List, [], Text, codes, same, length, itoa, sym,
  Result, ok, err, ◌>>=◌, if◌then◌else◌, arith, inl, inr, ◌⊎◌,
}
use mathlib.Core.Path.{fun_ext}
use httptap.Addr.{Ip, ip_string}
use httptap.Packet.{Bytes}
use httptap.Dns.Codes.{type_a, type_aaaa}
use httptap.Dns.{
  Question, Msg, DnsLib, special_question, special_ip, special_addresses, wrap_error, make_rrs,
  resolve_a, query_a, query_aaaa, answer_type, answer_question, answer_first, handle_dns_query,
  answers, packed, handle_dns,
}

module _ {RR : Type 0} (lib : DnsLib RR) where
  make_rrs-length :
      (name kind : Text) (ips : List Ip) (rrs : List RR)
      → make_rrs lib name kind ips ≡ ok rrs
      → length rrs ≡ length ips
  unfolding make_rrs
  make_rrs-length name kind [] rrs h = ground arith
  make_rrs-length name kind (ip ∷ ips) [] h = ground arith
  make_rrs-length name kind (ip ∷ ips) (rr ∷ rrs) h =
      ground (arith, make_rrs-length name kind ips rrs)

  module _ (req : Msg RR) (q : Question) (qs : List Question) (first : req.question ≡ q ∷ qs) where
    handle_first : handle_dns_query lib req ≡ answer_question lib q req
    unfolding handle_dns_query
    handle_first = ap (λ l. answer_first lib l req) first

  query_a_special :
      (rr : RR)
      → lib.new_rr (codes "host.httptap.local. A 169.254.77.65") ≡ ok rr
      → query_a lib special_question ≡ ok (rr ∷ [])
  unfolding query_a make_rrs ip_string itoa
  query_a_special rr hr = rw hr

  -- A query for the address of host.httptap.local is answered with the one record
  -- `host.httptap.local. A 169.254.77.65`, whatever the resolver and the upstream server would say,
  -- as long as that record can be made.
  special_answer :
      (req : Msg RR) (qs : List Question) (rr : RR)
      → req.question ≡ record { name = special_question; qtype = type_a } ∷ qs
      → lib.new_rr (codes "host.httptap.local. A 169.254.77.65") ≡ ok rr
      → handle_dns_query lib req ≡ ok (rr ∷ [])
  unfolding answer_question
  special_answer req qs rr hq hr = handle_first req _ qs hq ∙ query_a_special rr hr

  query_a-length :
      (name : Text) (ips : List Ip) (rrs : List RR)
      → lib.lookup_ip (codes "ip4") name ≡ ok ips
      → query_a lib name ≡ ok rrs
      → length rrs ≡ (if same name special_question then 1 else length ips)
  unfolding query_a
  query_a-length name ips rrs hl h = ground (
    arith,
    make_rrs-length name (codes " A ") (special_ip ∷ []) rrs,
    make_rrs-length name (codes " A ") ips rrs,
  )

  -- A successful answer to a query for an IPv4 address has one record for each address: one for
  -- the special name, and otherwise as many as the resolver has found.
  length-handle_dns_query :
      (req : Msg RR) (name : Text) (qs : List Question) (ips : List Ip) (rrs : List RR)
      → req.question ≡ record { name = name; qtype = type_a } ∷ qs
      → lib.lookup_ip (codes "ip4") name ≡ ok ips
      → handle_dns_query lib req ≡ ok rrs
      → length rrs ≡ (if same name special_question then 1 else length ips)
  unfolding answer_question
  length-handle_dns_query req name qs ips rrs hq hl h =
      query_a-length name ips rrs hl (sym (handle_first req _ qs hq) ∙ h)

module _ {RR : Type 0} (lib : DnsLib RR) where
  -- What is written for a message, given what becomes of its query.
  abbrev reply_with : Msg RR → Result (List RR) → Option Bytes
  reply_with req a =
      if req.opcode == lib.opcode_query
      then packed lib (lib.pack (record (lib.set_reply req) { answer = answers lib a }))
      else none

  handle_dns-unpacked :
      (payload : Bytes) (req : Msg RR)
      → lib.unpack payload ≡ ok req
      → handle_dns lib payload ≡ reply_with req (handle_dns_query lib req)
  unfolding handle_dns
  handle_dns-unpacked payload req hu =
      ap (λ x. elim x [ err e ↦ none | ok r ↦ reply_with r (handle_dns_query lib r) ]) hu

module _ {RR : Type 0} (lib : DnsLib RR) (exchange' : Msg RR → Text → Result (Msg RR)) where
  abbrev pub elsewhere : DnsLib RR
  elsewhere = record lib { exchange = exchange' }

  make_rrs-exchange :
      (name kind : Text) (ips : List Ip)
      → make_rrs lib name kind ips ≡ make_rrs elsewhere name kind ips
  unfolding make_rrs
  make_rrs-exchange name kind [] = refl
  make_rrs-exchange name kind (ip ∷ ips) = rw (make_rrs-exchange name kind ips)

  query_a-exchange : (name : Text) → query_a lib name ≡ query_a elsewhere name
  unfolding query_a
  query_a-exchange name =
      ap (λ f. resolve_a lib name (special_addresses name) >>= f)
        (fun_ext (make_rrs-exchange name (codes " A ")))

  query_aaaa-exchange : (name : Text) → query_aaaa lib name ≡ query_aaaa elsewhere name
  unfolding query_aaaa
  query_aaaa-exchange name =
      ap (λ f. wrap_error "the default resolver said" (lib.lookup_ip (codes "ip6") name) >>= f)
        (fun_ext (make_rrs-exchange name (codes " AAAA ")))

  -- A query for IPv4 or IPv6 addresses is never sent to the upstream server: its answer is the same
  -- whatever that server would say.
  handle_dns_query-local :
      (req : Msg RR) (q : Question) (qs : List Question)
      → req.question ≡ q ∷ qs
      → (q.qtype ≡ type_a) ⊎ (q.qtype ≡ type_aaaa)
      → handle_dns_query lib req ≡ handle_dns_query elsewhere req
  unfolding answer_question
  handle_dns_query-local req q qs hq h =
      handle_first lib req q qs hq ∙ same_answer h ∙ sym (handle_first elsewhere req q qs hq)
    where
      same_answer :
          (q.qtype ≡ type_a) ⊎ (q.qtype ≡ type_aaaa)
          → answer_question lib q req ≡ answer_question elsewhere q req
      same_answer (inl a) =
          ap (λ t. answer_type lib t q req) a
          ∙ query_a-exchange q.name
          ∙ sym (ap (λ t. answer_type elsewhere t q req) a)
      same_answer (inr a) =
          ap (λ t. answer_type lib t q req) a
          ∙ query_aaaa-exchange q.name
          ∙ sym (ap (λ t. answer_type elsewhere t q req) a)

  -- A datagram with a query whose first question asks for IPv4 or IPv6 addresses is answered without
  -- the upstream server, host.httptap.local included: the reply, or the lack of one, is the same
  -- whatever that server would say, and also whether it can be reached.
  pub handle_dns-local :
      (payload : Bytes) (req : Msg RR) (q : Question) (qs : List Question)
      → lib.unpack payload ≡ ok req
      → req.question ≡ q ∷ qs
      → (q.qtype ≡ type_a) ⊎ (q.qtype ≡ type_aaaa)
      → handle_dns lib payload ≡ handle_dns elsewhere payload
  unfolding handle_dns
  handle_dns-local payload req q qs hu hq h =
      handle_dns-unpacked lib payload req hu
      ∙ ap (reply_with lib req) (handle_dns_query-local req q qs hq h)
      ∙ sym (handle_dns-unpacked elsewhere payload req hu)
