-- ===== src/Examples/Data.antt =====
-- The addresses, packets and libraries of the examples.
use httptap.Shared.{ℕ, true, none, [], ◌∷◌, codes, Chan, make_chan}
use httptap.Addr.{v4, AddrPort}
use httptap.Packet.{Bytes, Ipv4Header, TcpHeader, zero_tcp, reply_ipv4, tcp_protocol, Gopacket}
use httptap.Mux.{Mux, new_mux, accepting}

abbrev pub client : AddrPort
client = record { addr = v4 10 1 1 100; port = 40 }

abbrev pub server : AddrPort
server = record { addr = v4 93 184 216 34; port = 80 }

abbrev pub resolver : AddrPort
resolver = record { addr = v4 1 1 1 1; port = 53 }

-- A serialisation that puts the sequence and acknowledgement numbers before the payload.
abbrev pub packets : Gopacket
packets = record {
  append_bytes = λ n. none;
  network_layer = λ ip. none;
  tcp_to = λ ip tcp payload. (tcp.seq ∷ tcp.ack ∷ payload, none);
  udp_to = λ ip udp payload. (udp.src_port ∷ udp.dst_port ∷ payload, none);
  ipv4_to = λ ip buf. (ip.version ∷ buf, none);
}

abbrev pub ip_out : Ipv4Header
ip_out = reply_ipv4 tcp_protocol (v4 10 1 1 100) (v4 93 184 216 34)

abbrev pub tcp_out : TcpHeader
tcp_out = record zero_tcp { src_port = 40; dst_port = 80; seq = 7 }

abbrev pub syn : TcpHeader
syn = record tcp_out { syn_flag = true }

abbrev pub ack_with_data : TcpHeader
ack_with_data = record tcp_out { seq = 8; ack_flag = true; payload = codes "GET" }

abbrev pub fin : TcpHeader
fin = record tcp_out { seq = 11; fin_flag = true; ack_flag = true }

-- A multiplexer with one handler, 5, for the port 80.
abbrev pub web_mux : Mux ℕ ℕ
web_mux = record new_mux { tcp_handlers = record { pat = codes "*"; handler = accepting 5 } ∷ [] }

abbrev pub link : Chan Bytes
link = make_chan 4

abbrev pub full_link : Chan Bytes
full_link = make_chan 0
