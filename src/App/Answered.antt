-- ===== src/App/Answered.antt =====
-- A DNS query from the subprocess to its reply: the UDP stack, the multiplexer with the handlers of
-- Main, the DNS handler and the responder, together.
use httptap.Shared.{
  ℕ, ◌==◌, ◌≡◌, refl, Bool, true, false, Option, none, some, List, [], ◌∷◌, Result, ok, err,
  if◌then◌else◌, Chan, send, arith,
}
use httptap.Addr.{AddrPort}
use httptap.Packet.{Bytes, Ipv4Header, UdpHeader, reply_ipv4, udp_protocol, Gopacket, serialize_udp}
use httptap.Udp.{
  UdpStack, Started, Responder, new_udp_stack, handle_packet, responder_for, packet_for, start,
  write,
}
use httptap.Dns.{DnsLib, handle_dns}
use httptap.App.{Service, UdpService, dns, AppMux, app_mux}
use httptap.App.Routes.{app_mux_routes}

module _ {RR : Type 0} (lib : DnsLib RR) (g : Gopacket) where
  abbrev write_reply : Responder → Option Bytes → Chan Bytes → Chan Bytes
  write_reply r none to = to
  write_reply r (some buf) to = (write g buf r to).0

  -- The handler that Main registers for port 53, in the goroutine that notifyUDP has started.
  unfoldable run_dns : Started UdpService → Chan Bytes → Chan Bytes
  run_dns s to = write_reply s.responder (handle_dns lib s.packet.payload) to

  unfoldable pub run_started : List (Started UdpService) → Chan Bytes → Chan Bytes
  unfolding run_dns
  run_started [] to = to
  run_started (s ∷ l) to = run_started l (run_dns s to)

  abbrev sent : Chan Bytes → Result Bytes → Chan Bytes
  sent to (err e) = to
  sent to (ok packet) = send to packet

  -- The headers of the reply to a datagram.
  abbrev reply_header : Ipv4Header → Ipv4Header
  reply_header ipv4 = reply_ipv4 udp_protocol ipv4.dst_ip ipv4.src_ip

  abbrev reply_udp : UdpHeader → UdpHeader
  reply_udp udp = record { src_port = udp.dst_port; dst_port = udp.src_port; payload = [] }

  abbrev replied : Ipv4Header → UdpHeader → Option Bytes → Chan Bytes → Chan Bytes
  replied ipv4 udp none to = to
  replied ipv4 udp (some buf) to = sent to (serialize_udp g (reply_header ipv4) (reply_udp udp) buf)

  -- What the channel to the subprocess must hold after a datagram.
  abbrev pub answered : Ipv4Header → UdpHeader → Bytes → Chan Bytes → Chan Bytes
  answered ipv4 udp payload to =
      if udp.dst_port == 53 then replied ipv4 udp (handle_dns lib payload) to else to

  write_sent :
      (r : Responder) (buf : Bytes) (to : Chan Bytes)
      → (write g buf r to).0 ≡ sent to (serialize_udp g r.ipv4_header r.udp_header buf)
  unfolding write
  write_sent r buf to = ground arith

  write_replied :
      (ipv4 : Ipv4Header) (udp : UdpHeader) (o : Option Bytes) (to : Chan Bytes)
      → write_reply (responder_for ipv4 udp) o to ≡ replied ipv4 udp o to
  unfolding responder_for
  write_replied ipv4 udp none to = refl
  write_replied ipv4 udp (some buf) to = write_sent (responder_for ipv4 udp) buf to

  -- Whatever a datagram of the subprocess is sent to, with the multiplexer that Main builds for any
  -- ports: if it is sent to port 53 and handleDNS has a reply to its payload, then after the handler
  -- has run the reply is queued for the subprocess as a datagram with the addresses and ports of the
  -- query exchanged, if it can be serialised and the channel has room; in all other cases the
  -- channel is as before.
  pub dns_query_answered :
      (http_ports https_ports : List ℕ) (ipv4 : Ipv4Header) (udp : UdpHeader) (payload : Bytes)
      (to : Chan Bytes)
      → (m : AppMux) × (st : UdpStack Service UdpService) × (app_mux http_ports https_ports
          ≡ some m)
        × (handle_packet ipv4 udp payload (new_udp_stack m to) ≡ some st)
        × (run_started st.started st.to_subprocess ≡ answered ipv4 udp payload to)
  unfolding run_started handle_packet responder_for packet_for new_udp_stack
  dns_query_answered hs ss ipv4 udp payload to =
      let dst : AddrPort = record { addr = ipv4.dst_ip; port = udp.dst_port } in
      let (m, is_mux, _, is_handler) = app_mux_routes hs ss dst in
      let r = responder_for ipv4 udp in
      let p = packet_for ipv4 udp payload in
      (
        m,
        record (new_udp_stack m to) {
          started = start (if udp.dst_port == 53 then some dns else none) r p [];
        },
        is_mux,
        ground (arith, is_handler),
        ran (udp.dst_port == 53),
      )
    where
      ran :
          (b : Bool)
          → run_started
              (start
                (if b then some dns else none)
                (responder_for ipv4 udp)
                (packet_for ipv4 udp payload)
                [])
              to
            ≡ (if b then replied ipv4 udp (handle_dns lib payload) to else to)
      ran true = write_replied ipv4 udp (handle_dns lib payload) to
      ran false = refl
