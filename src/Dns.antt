-- ===== src/Dns.antt =====
-- dns.go: the answers to the DNS queries of the subprocess. miekg/dns and the resolvers are not
-- part of the repository: they are a parameter.
pub mod Codes
pub mod Answers
use Prim.Native.String.{String}
use httptap.Shared.{
  ℕ, ◌==◌, ◌++◌, ◌∷◌, List, [], Option, none, some, Text, codes, same, length, Error, error, wrap,
  Result, ok, err, ◌>>=◌, if◌then◌else◌, Bool, true, false,
}
use httptap.Addr.{Ip, v4, ip_string}
use httptap.Packet.{Bytes}
use httptap.Dns.Codes.{QType, type_a, type_aaaa}

pub record Question : Type 0 where
  pub name : Text
  pub qtype : QType

-- dns.Msg: the fields that the program reads or sets, and the rest of the header in one.
pub record Msg (RR : Type 0) : Type 0 where
  pub id : ℕ
  pub opcode : ℕ
  pub question : List Question
  pub answer : List RR

-- What dns.go calls: the codec and client of miekg/dns, and net.DefaultResolver.
pub record DnsLib (RR : Type 0) : Type 0 where
  pub opcode_query : ℕ
  pub unpack : Bytes → Result (Msg RR)
  pub pack : Msg RR → Result Bytes
  pub set_reply : Msg RR → Msg RR
  pub new_rr : Text → Result RR
  pub lookup_ip : Text → Text → Result (List Ip)
  pub exchange : Msg RR → Text → Result (Msg RR)

-- The key of specialAddresses.
abbrev pub special_question : Text
special_question = codes "host.httptap.local."

abbrev pub special_ip : Ip
special_ip = v4 169 254 77 65

-- specialAddresses, a map with one entry.
abbrev pub special_addresses : Text → Option Ip
special_addresses name = if same name special_question then some special_ip else none

abbrev pub upstream_dns : Text
upstream_dns = codes "1.1.1.1:53"

abbrev pub wrap_error : {A : Type 0} → String → Result A → Result A
wrap_error message (ok a) = ok a
wrap_error message (err e) = err (wrap message e)

module _ {RR : Type 0} (lib : DnsLib RR) where
  -- The loop over the addresses: the first record that cannot be made ends it.
  unfoldable pub make_rrs : Text → Text → List Ip → Result (List RR)
  make_rrs name kind [] = ok []
  make_rrs name kind (ip ∷ ips) = do
    rr ← wrap_error "error constructing rr" (lib.new_rr (name ++ (kind ++ ip_string ip)))
    rrs ← make_rrs name kind ips
    ok (rr ∷ rrs)

  abbrev pub resolve_a : Text → Option Ip → Result (List Ip)
  resolve_a name (some ip) = ok (ip ∷ [])
  resolve_a name none = wrap_error "the default resolver said" (lib.lookup_ip (codes "ip4") name)

  unfoldable pub query_a : Text → Result (List RR)
  query_a name = do ips ← resolve_a name (special_addresses name); make_rrs name (codes " A ") ips

  unfoldable pub query_aaaa : Text → Result (List RR)
  query_aaaa name = do
    ips ← wrap_error "the default resolver said" (lib.lookup_ip (codes "ip6") name)
    make_rrs name (codes " AAAA ") ips

  abbrev pub nonempty_answer : List RR → Result (List RR)
  nonempty_answer [] = err (error "not found")
  nonempty_answer (rr ∷ rrs) = ok (rr ∷ rrs)

  -- The request goes on to the upstream server with its first question only.
  unfoldable pub query_upstream : Question → Msg RR → Result (List RR)
  query_upstream q req = do
    response ← lib.exchange (record req { question = q ∷ [] }) upstream_dns
    nonempty_answer response.answer

  -- The switch on the type of the first question.
  unfoldable pub answer_type : QType → Question → Msg RR → Result (List RR)
  answer_type type_a q req = query_a q.name
  answer_type type_aaaa q req = query_aaaa q.name
  answer_type _ q req = query_upstream q req

  unfoldable pub answer_question : Question → Msg RR → Result (List RR)
  unfolding answer_type
  answer_question q req = answer_type q.qtype q req

  unfoldable pub answer_first : List Question → Msg RR → Result (List RR)
  answer_first [] req = ok []
  answer_first (q ∷ qs) req = answer_question q req

  unfoldable pub handle_dns_query : Msg RR → Result (List RR)
  unfolding answer_first
  handle_dns_query req = answer_first req.question req

  -- The answer section of a reply: empty when the query failed.
  abbrev pub answers : Result (List RR) → List RR
  answers (ok rrs) = rrs
  answers (err e) = []

  abbrev pub packed : Result Bytes → Option Bytes
  packed (ok buf) = some buf
  packed (err e) = none

  -- What handleDNS writes to the subprocess, in its one call of Write, if it gets that far.
  unfoldable pub handle_dns : Bytes → Option Bytes
  handle_dns payload = elim (lib.unpack payload) [
    | err e ↦ none
    | ok req ↦
        if req.opcode == lib.opcode_query
        then packed
            (lib.pack (record (lib.set_reply req) { answer = answers (handle_dns_query req) }))
        else none
  ]
