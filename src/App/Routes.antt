-- ===== src/App/Routes.antt =====
-- Which service of Main a new connection or datagram reaches.
use httptap.Shared.{
  ℕ, Bool, false, ◌==◌, ◌||◌, ◌≡◌, refl, ap, none, some, List, [], ◌∷◌, ◌++◌, Text, codes,
  if◌then◌else◌, arith, append-nil, append_assoc, itoa,
}
use httptap.Addr.{AddrPort}
use httptap.Mux.{
  new_mux, Entry, RequestHandler, accepting, pattern_matches, first_match, handle_tcp, handle_udp,
  notify_tcp, notify_udp,
}
use httptap.Mux.Matching.{port_pattern, pattern_matches_iff-port, pattern_matches-star}
use httptap.App.{
  Service, proxy_http, proxy_https, proxy_tcp, UdpService, dns, AppMux, register_ports, app_mux,
}

abbrev pub member : ℕ → List ℕ → Bool
member p [] = false
member p (q ∷ qs) = p == q || member p qs

-- The service that the options --http and --https ask for at a port.
abbrev pub service_of : List ℕ → List ℕ → ℕ → Service
service_of http_ports https_ports port =
    if member port http_ports
    then proxy_http
    else if member port https_ports
    then proxy_https
    else proxy_tcp

entries : Service → List ℕ → List (Entry (RequestHandler Service))
entries s [] = []
entries s (p ∷ ps) = record { pat = port_pattern p; handler = accepting s } ∷ entries s ps

matches-port : (p : ℕ) (addr : AddrPort) → pattern_matches (port_pattern p) addr ≡ (addr.port == p)
matches-port p addr =
    ground (arith, (pattern_matches_iff-port p addr).0, (pattern_matches_iff-port p addr).1)

first_match-entries :
    (s : Service) (ports : List ℕ) (rest : List (Entry (RequestHandler Service))) (addr : AddrPort)
    → first_match (entries s ports ++ rest) addr
      ≡ (if member addr.port ports then some (accepting s) else first_match rest addr)
unfolding first_match entries
first_match-entries s [] rest addr = refl
first_match-entries s (p ∷ ps) rest addr =
    rw (matches-port p addr) (ground (arith, first_match-entries s ps rest addr))

abbrev with_tcp : AppMux → List (Entry (RequestHandler Service)) → AppMux
with_tcp m es = record m { tcp_handlers = m.tcp_handlers ++ es }

handle_tcp_lem :
    (pat : Text) (s : Service) (m : AppMux)
    → m.locked ≡ false
    → handle_tcp pat s m ≡ some (with_tcp m (record { pat = pat; handler = accepting s } ∷ []), tt)
unfolding handle_tcp
handle_tcp_lem pat s m free = ground arith

register_ports_lem :
    (s : Service) (ports : List ℕ) (m : AppMux)
    → m.locked ≡ false
    → register_ports s ports m ≡ some (with_tcp m (entries s ports))
unfolding register_ports entries
register_ports_lem s [] m free = rw append-nil
register_ports_lem s (p ∷ ps) m free =
    rw (handle_tcp_lem (port_pattern p) s m free, register_ports)
      (rw
        (register_ports_lem s ps
          (with_tcp m (record { pat = port_pattern p; handler = accepting s } ∷ [])) free)
        (rw append_assoc))

dns_entry : Entry UdpService
dns_entry = record { pat = codes ":53"; handler = dns }

built : List ℕ → List ℕ → AppMux
unfolding entries dns_entry
built http_ports https_ports = record {
  locked = false;
  tcp_handlers =
      entries proxy_http http_ports
      ++ (entries proxy_https https_ports
          ++ record { pat = codes "*"; handler = accepting proxy_tcp } ∷ []);
  udp_handlers = dns_entry ∷ [];
}

with_dns : AppMux
unfolding dns_entry
with_dns = record { locked = false; tcp_handlers = []; udp_handlers = dns_entry ∷ [] }

handle_udp_lem : handle_udp (codes ":53") dns new_mux ≡ some (with_dns, tt)
unfolding handle_udp with_dns
handle_udp_lem = refl

app_mux_lem : (hs ss : List ℕ) → app_mux hs ss ≡ some (built hs ss)
unfolding app_mux built with_dns
app_mux_lem hs ss =
    let with_http = with_tcp with_dns (entries proxy_http hs) in
    let with_https = with_tcp with_http (entries proxy_https ss) in
    rw handle_udp_lem (
      rw (register_ports_lem proxy_http hs with_dns refl) (
        rw (register_ports_lem proxy_https ss with_http refl)
          (rw (handle_tcp_lem (codes "*") proxy_tcp with_https refl) (rw append_assoc))))

first_match-star :
    (addr : AddrPort)
    → first_match (record { pat = codes "*"; handler = accepting proxy_tcp } ∷ []) addr
      ≡ some (accepting proxy_tcp)
unfolding first_match
first_match-star addr = rw (pattern_matches-star addr)

port_53 : port_pattern 53 ≡ codes ":53"
unfolding itoa
port_53 = refl

first_match-dns :
    (addr : AddrPort)
    → first_match (dns_entry ∷ []) addr ≡ (if addr.port == 53 then some dns else none)
unfolding first_match dns_entry
first_match-dns addr = rw (← matches-port 53 addr, port_53) refl

first_match-built :
    (hs ss : List ℕ) (addr : AddrPort)
    → first_match (built hs ss).tcp_handlers addr ≡ some (accepting (service_of hs ss addr.port))
unfolding built
first_match-built hs ss addr =
    let star : List (Entry (RequestHandler Service)) =
      record { pat = codes "*"; handler = accepting proxy_tcp } ∷ [] in
    rw (first_match-entries proxy_http hs (entries proxy_https ss ++ star) addr) (
      rw (first_match-entries proxy_https ss star addr) (rw (first_match-star addr) (ground arith)))

-- With the multiplexer that Main builds for the options --http and --https, every connection is
-- handed to a service, whatever its address: to the HTTP proxy if its port is among the HTTP ports,
-- otherwise to the HTTPS proxy if it is among the HTTPS ports, otherwise to the TCP proxy. A UDP
-- packet reaches the DNS handler exactly if it is sent to port 53, and no handler otherwise.
pub app_mux_routes :
    (http_ports https_ports : List ℕ) (addr : AddrPort)
    → (m : AppMux) × (app_mux http_ports https_ports ≡ some m)
      × (notify_tcp addr m
          ≡ some (m, some (accepting (service_of http_ports https_ports addr.port))))
      × (notify_udp addr m ≡ some (m, if addr.port == 53 then some dns else none))
unfolding notify_tcp notify_udp built
app_mux_routes hs ss addr = (
  built hs ss,
  app_mux_lem hs ss,
  ap (λ h. some (built hs ss, h)) (first_match-built hs ss addr),
  ap (λ h. some (built hs ss, h)) (first_match-dns addr),
)
