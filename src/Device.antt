-- ===== src/Device.antt =====
-- readFromDevice of httptap.go: the packets that are read from the TUN device go to the two stacks.
-- The reading and the decoding are not part of the repository: a read is an event.
pub mod Copy
pub mod Dump
pub mod Loop
use httptap.Shared.{Option, none, some, List, [], ◌∷◌, Chan, Result, ok, err}
use httptap.Packet.{Bytes, Ipv4Header, TcpHeader, UdpHeader, Gopacket}
use httptap.Mux.{Mux}
use httptap.Tcp.Stack.{TcpStack}
use httptap.Udp.{UdpStack}

-- The layers that gopacket finds in a packet.
pub record Layers : Type 0 where
  pub ipv4 : Option Ipv4Header
  pub tcp : Option TcpHeader
  pub udp : Option UdpHeader

-- The two stacks. They share the multiplexer and the channel to the subprocess.
pub record Device (H U : Type 0) : Type 0 where
  pub tcp_stack : TcpStack H U
  pub udp_stack : UdpStack H U

module _ {H U : Type 0} (g : Gopacket) where
  -- The device after a change of the TCP stack, or of the UDP stack, to what is shared.
  abbrev pub with_tcp : Device H U → TcpStack H U → Device H U
  with_tcp d t = record {
    tcp_stack = t;
    udp_stack = record d.udp_stack { app = t.app; to_subprocess = t.to_subprocess };
  }

  abbrev pub with_udp : Device H U → UdpStack H U → Device H U
  with_udp d u = record {
    tcp_stack = record d.tcp_stack { app = u.app; to_subprocess = u.to_subprocess };
    udp_stack = u;
  }

  -- `if isTCP { … }` and `if isUDP { … }`. `none` is a multiplexer whose lock is never free.
  unfoldable pub to_tcp : Ipv4Header → Option TcpHeader → Device H U → Option (Device H U)
  to_tcp ipv4 none d = some d
  to_tcp ipv4 (some tcp) d = elim (httptap.Tcp.Stack.handle_packet g ipv4 tcp d.tcp_stack) [
    | none ↦ none
    | some t ↦ some (with_tcp d t)
  ]

  unfoldable pub to_udp : Ipv4Header → Option UdpHeader → Device H U → Option (Device H U)
  to_udp ipv4 none d = some d
  to_udp ipv4 (some udp) d = elim (httptap.Udp.handle_packet ipv4 udp udp.payload d.udp_stack) [
    | none ↦ none
    | some u ↦ some (with_udp d u)
  ]

  unfoldable pub deliver : Option Ipv4Header → Layers → Device H U → Option (Device H U)
  deliver none l d = some d
  deliver (some ipv4) l d = elim (to_tcp ipv4 l.tcp d) [
    | none ↦ none
    | some d' ↦ to_udp ipv4 l.udp d'
  ]

  -- The loop, over the results of the reads: an error is ignored.
  unfoldable pub read_from_device : List (Result Layers) → Device H U → Option (Device H U)
  read_from_device [] d = some d
  read_from_device (err e ∷ reads) d = read_from_device reads d
  read_from_device (ok l ∷ reads) d = elim (deliver l.ipv4 l d) [
    | none ↦ none
    | some d' ↦ read_from_device reads d'
  ]
