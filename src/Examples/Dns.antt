-- ===== src/Examples/Dns.antt =====
-- The theorems on dns.go, for a library whose records are texts.
use httptap.Shared.{
  inl, refl, Result, ◌≡◌, some, List, [], ◌∷◌, Text, codes, length, error, ok, err,
}
use httptap.Addr.{v4}
use httptap.Dns.Codes.{QType, type_a}
use httptap.Dns.{Msg, DnsLib, handle_dns}
use httptap.Dns.Answers.{elsewhere, handle_dns-local}
use httptap.Packet.{UdpHeader}
use httptap.Udp.{UdpStack, new_udp_stack, handle_packet}
use httptap.App.{Service, UdpService, AppMux, app_mux}
use httptap.App.Answered.{run_started, answered, dns_query_answered}
use httptap.Examples.Data.{packets, ip_out, link}

abbrev pub ask : Text → QType → Msg Text
ask name qtype = record {
  id = 1;
  opcode = 0;
  question = record { name = name; qtype = qtype } ∷ [];
  answer = [];
}

-- A library that reads every datagram as a query for two addresses of a.b, and resolves to two.
abbrev pub lib : DnsLib Text
lib = record {
  opcode_query = 0;
  unpack = λ b. ok (ask (codes "a.b.") type_a);
  pack = λ m. ok (length m.answer ∷ []);
  set_reply = λ m. m;
  new_rr = λ t. ok t;
  lookup_ip = λ network name. ok (v4 1 2 3 4 ∷ v4 5 6 7 8 ∷ []);
  exchange = λ m server. err (error "no upstream server");
}

abbrev two_records : List Text
two_records = codes "a.b. A 1.2.3.4" ∷ codes "a.b. A 5.6.7.8" ∷ []

-- An upstream server that answers everything by nothing.
abbrev silent : Msg Text → Text → Result (Msg Text)
silent m server = ok m

handle_dns-local_example :
    handle_dns lib (codes "query") ≡ handle_dns (elsewhere lib silent) (codes "query")
handle_dns-local_example =
    handle_dns-local lib silent (codes "query") (ask (codes "a.b.") type_a)
      (record { name = codes "a.b."; qtype = type_a }) [] refl refl (inl refl)

abbrev query : UdpHeader
query = record { src_port = 40; dst_port = 53; payload = [] }

dns_query_answered_example :
    (m : AppMux) × (st : UdpStack Service UdpService) × (app_mux (80 ∷ []) (443 ∷ []) ≡ some m)
    × (handle_packet ip_out query (codes "query") (new_udp_stack m link) ≡ some st)
    × (run_started lib packets st.started st.to_subprocess
        ≡ answered lib packets ip_out query (codes "query") link)
dns_query_answered_example =
    dns_query_answered lib packets (80 ∷ []) (443 ∷ []) ip_out query (codes "query") link
