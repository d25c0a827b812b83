-- ===== src/Udp.antt =====
-- udp.go: udpStack, which hands the datagrams of the subprocess to the multiplexer, and
-- udpStackResponder, which writes datagrams back to their sender.
pub mod Replies
use httptap.Shared.{
  ℕ, Bool, Option, none, some, List, [], ◌∷◌, ◌++◌, length, Error, error, wrap, Result, ok, err,
  if◌then◌else◌, Chan, send, room,
}
use httptap.Addr.{Ip, AddrPort}
use httptap.Packet.{Bytes, Ipv4Header, UdpHeader, reply_ipv4, udp_protocol, Gopacket, serialize_udp}
use httptap.Mux.{Mux, notify_udp}

pub record UdpPacket : Type 0 where
  pub src : AddrPort
  pub dst : AddrPort
  pub payload : Bytes

-- The responder's pointer to its stack is the stack that its methods are given.
pub record Responder : Type 0 where
  pub udp_header : UdpHeader
  pub ipv4_header : Ipv4Header

-- A handler started by notifyUDP, with its arguments.
pub record Started (U : Type 0) : Type 0 where
  pub handler : U
  pub responder : Responder
  pub packet : UdpPacket

pub record UdpStack (H U : Type 0) : Type 0 where
  pub to_subprocess : Chan Bytes
  pub app : Mux H U
  pub started : List (Started U)

unfoldable pub new_udp_stack : {H U : Type 0} → Mux H U → Chan Bytes → UdpStack H U
new_udp_stack app link = record { to_subprocess = link; app = app; started = [] }

-- The responder that handlePacket makes: ports and addresses of the datagram, exchanged.
unfoldable pub responder_for : Ipv4Header → UdpHeader → Responder
responder_for ipv4 udp = record {
  udp_header = record { src_port = udp.dst_port; dst_port = udp.src_port; payload = [] };
  ipv4_header = reply_ipv4 udp_protocol ipv4.dst_ip ipv4.src_ip;
}

unfoldable pub packet_for : Ipv4Header → UdpHeader → Bytes → UdpPacket
packet_for ipv4 udp payload = record {
  src = record { addr = ipv4.src_ip; port = udp.src_port };
  dst = record { addr = ipv4.dst_ip; port = udp.dst_port };
  payload = payload;
}

abbrev pub start :
    {U : Type 0} → Option U → Responder → UdpPacket → List (Started U) → List (Started U)
start none r p l = l
start (some h) r p l = l ++ record { handler = h; responder = r; packet = p } ∷ []

module _ {H U : Type 0} where
  -- `none` is a multiplexer whose lock is never free.
  unfoldable pub handle_packet :
      Ipv4Header → UdpHeader → Bytes → UdpStack H U → Option (UdpStack H U)
  unfolding responder_for packet_for
  handle_packet ipv4 udp payload st =
      let packet = packet_for ipv4 udp payload in
      elim (notify_udp packet.dst st.app) [
        | none ↦ none
        | some (app', h) ↦
            some (record st {
              app = app';
              started = start h (responder_for ipv4 udp) packet st.started;
            })
      ]

unfoldable pub set_source_ip : Ip → Responder → Responder
set_source_ip ip r = record r { ipv4_header = record r.ipv4_header { src_ip = ip } }

unfoldable pub set_source_port : ℕ → Responder → Responder
set_source_port port r = record r { udp_header = record r.udp_header { src_port = port } }

unfoldable pub set_dest_ip : Ip → Responder → Responder
set_dest_ip ip r = record r { ipv4_header = record r.ipv4_header { dst_ip = ip } }

unfoldable pub set_dest_port : ℕ → Responder → Responder
set_dest_port port r = record r { udp_header = record r.udp_header { dst_port = port } }

-- Write: the channel to the subprocess, and the number of bytes or an error.
unfoldable pub write : Gopacket → Bytes → Responder → Chan Bytes → Chan Bytes × Result ℕ
write g payload r to = elim (serialize_udp g r.ipv4_header r.udp_header payload) [
  | err e ↦ (to, err (wrap "error serializing UDP packet" e))
  | ok packet ↦
      if room to
      then (send to packet, ok (length payload))
      else (to, err (error "channel for sending udp to subprocess would have blocked"))
]
