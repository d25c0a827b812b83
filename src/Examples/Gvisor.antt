-- ===== src/Examples/Gvisor.antt =====
-- The theorems on the two stacks, for the SYN of a connection to a web server and two DNS queries
-- with an error between them.
use httptap.Shared.{ℕ, ◌≡◌, refl, Option, none, some, List, [], ◌∷◌, map, codes, error}
use httptap.Packet.{UdpHeader}
use httptap.Mux.{RequestHandler, new_mux}
use httptap.Udp.{UdpStack}
use httptap.Tcp.{TcpStream}
use httptap.Tcp.Stack.{new_tcp_stack, lookup, key_of, spawn}
use httptap.Tcp.Isolation.{handle_packet_lem}
use httptap.Gvisor.{
  UdpRead, datagram, closed, failed, forward_tcp, forward_udp, new_request, local_addr, remote_addr,
}
use httptap.Gvisor.Agreement.{
  id_of, tcp_stacks_agree, udp_id_of, served, handle_datagrams, udp_stacks_agree,
}
use httptap.Examples.Data.{packets, ip_out, syn, link}
use httptap.Examples.Tcp.{fresh, opened}

unknown : lookup (key_of ip_out syn) fresh.streams ≡ none
unfolding new_tcp_stack lookup
unknown = refl

tcp_stacks_agree_example :
    (h : Option (RequestHandler ℕ)) × (forward_tcp (id_of ip_out syn) fresh.app
      ≡ some (fresh.app, h))
    × (opened.spawned ≡ spawn h (key_of ip_out syn) fresh.spawned)
    × (s : TcpStream) × (lookup (key_of ip_out syn) opened.streams ≡ some s)
    × (s.world ≡ local_addr (new_request (id_of ip_out syn)))
    × (s.subprocess ≡ remote_addr (new_request (id_of ip_out syn)))
unfolding new_tcp_stack
tcp_stacks_agree_example =
    tcp_stacks_agree packets ip_out syn fresh opened refl unknown refl
      (handle_packet_lem packets ip_out syn fresh refl)

abbrev resolving : UdpStack ℕ ℕ
resolving = record {
  to_subprocess = link;
  app = record new_mux { udp_handlers = record { pat = codes ":53"; handler = 7 } ∷ [] };
  started = [];
}

abbrev query : UdpHeader
query = record { src_port = 4000; dst_port = 53; payload = [] }

abbrev reads : List UdpRead
reads = datagram (codes "a") ∷ failed (error "timeout") ∷ datagram (codes "b") ∷ closed ∷ []

udp_stacks_agree_example :
    (st' : UdpStack ℕ ℕ) × (handle_datagrams ip_out query (codes "a" ∷ codes "b" ∷ []) resolving
      ≡ some st')
    × (st'.app ≡ resolving.app)
    × (forward_udp (udp_id_of ip_out query) none reads (resolving.app, [])
        ≡ some (resolving.app, map served st'.started))
udp_stacks_agree_example = udp_stacks_agree ip_out query reads resolving refl
