-- ===== src/Packet.antt =====
-- The packet headers that tcp.go and udp.go fill in, serializeTCP, serializeUDP, and the one-line
-- summaries. gopacket is not part of the repository: its calls are a parameter.
use Prim.Native.String.{String}
use httptap.Shared.{
  ℕ, ◌++◌, ◌∷◌, List, [], Bool, false, Option, none, some, Text, codes, itoa, length, Error, wrap,
  Result, ok, err, if◌then◌else◌,
}
use httptap.Addr.{Ip, ip_string}

abbrev pub Bytes : Type 0
Bytes = List ℕ

-- The constant `ttl` of httptap.go.
abbrev pub ttl : ℕ
ttl = 10

-- The size of the receive window that every reply announces.
abbrev pub reply_window : ℕ
reply_window = 64240

pub data Protocol : Type 0 where
  tcp_protocol udp_protocol : Protocol

-- The fields of layers.IPv4 that the program sets or reads.
pub record Ipv4Header : Type 0 where
  pub version : ℕ
  pub time_to_live : ℕ
  pub protocol : Protocol
  pub src_ip : Ip
  pub dst_ip : Ip

-- The fields of layers.TCP that the program sets or reads, and the payload of a decoded segment.
pub record TcpHeader : Type 0 where
  pub src_port : ℕ  -- uint16
  pub dst_port : ℕ  -- uint16
  pub seq : ℕ  -- uint32
  pub ack : ℕ  -- uint32
  pub fin_flag : Bool
  pub syn_flag : Bool
  pub rst_flag : Bool
  pub ack_flag : Bool
  pub urg_flag : Bool
  pub ece_flag : Bool
  pub cwr_flag : Bool
  pub ns_flag : Bool
  pub window : ℕ
  pub payload : Bytes

-- layers.UDP.
pub record UdpHeader : Type 0 where
  pub src_port : ℕ
  pub dst_port : ℕ
  pub payload : Bytes

-- The header with every field at Go's zero value.
abbrev pub zero_tcp : TcpHeader
zero_tcp = record {
  src_port = 0;
  dst_port = 0;
  seq = 0;
  ack = 0;
  fin_flag = false;
  syn_flag = false;
  rst_flag = false;
  ack_flag = false;
  urg_flag = false;
  ece_flag = false;
  cwr_flag = false;
  ns_flag = false;
  window = 0;
  payload = [];
}

-- `layers.IPv4{Version: 4, TTL: ttl, Protocol: …, SrcIP: …, DstIP: …}`, as every reply has it.
abbrev pub reply_ipv4 : Protocol → Ip → Ip → Ipv4Header
reply_ipv4 p src dst = record {
  version = 4;
  time_to_live = ttl;
  protocol = p;
  src_ip = src;
  dst_ip = dst;
}

-- The calls of gopacket. A serialisation prepends a layer to the buffer: it returns what the
-- buffer holds afterwards, and an error or not. The layer whose checksum covers an IP header is
-- given the header that SetNetworkLayerForChecksum set.
pub record Gopacket : Type 0 where
  pub append_bytes : ℕ → Option Error
  pub network_layer : Ipv4Header → Option Error
  pub tcp_to : Ipv4Header → TcpHeader → Bytes → Bytes × Option Error
  pub udp_to : Ipv4Header → UdpHeader → Bytes → Bytes × Option Error
  pub ipv4_to : Ipv4Header → Bytes → Bytes × Option Error

module _ (g : Gopacket) where
  -- The last layer: an error of it is logged, and the buffer is returned all the same.
  serialize_ipv4 : Ipv4Header → String → Bytes × Option Error → Result Bytes
  serialize_ipv4 ipv4 message (buf, some e) = err (wrap message e)
  serialize_ipv4 ipv4 message (buf, none) = ok (g.ipv4_to ipv4 buf).0

  unfoldable pub serialize_tcp : Ipv4Header → TcpHeader → Bytes → Result Bytes
  unfolding serialize_ipv4
  serialize_tcp ipv4 tcp payload = elim (g.append_bytes (length payload)) [
    | some e ↦ err (wrap "error appending TCP payload to packet" e)
    | none ↦ serialize_ipv4 ipv4 "error serializing TCP part of packet" (g.tcp_to ipv4 tcp payload)
  ]

  unfoldable pub serialize_udp : Ipv4Header → UdpHeader → Bytes → Result Bytes
  unfolding serialize_ipv4
  serialize_udp ipv4 udp payload = elim (g.append_bytes (length payload)) [
    | some e ↦ err (wrap "error appending UDP payload to packet" e)
    | none ↦ serialize_ipv4 ipv4 "error serializing UDP part of packet" (g.udp_to ipv4 udp payload)
  ]

-- `flags = append(flags, name)` under the flag's test.
flag : Bool → String → List Text → List Text
flag set name flags = if set then flags ++ codes name ∷ [] else flags

-- strings.Join.
join : Text → List Text → Text
join sep [] = []
join sep (x ∷ []) = x
join sep (x ∷ y ∷ rest) = x ++ (sep ++ join sep (y ∷ rest))

unfoldable pub tcp_flags : TcpHeader → Text
unfolding flag join
tcp_flags tcp =
    let flags = flag tcp.fin_flag "FIN" [] in
    let flags = flag tcp.syn_flag "SYN" flags in
    let flags = flag tcp.rst_flag "RST" flags in
    let flags = flag tcp.ack_flag "ACK" flags in
    let flags = flag tcp.urg_flag "URG" flags in
    let flags = flag tcp.ece_flag "ECE" flags in
    let flags = flag tcp.cwr_flag "CWR" flags in
    let flags = flag tcp.ns_flag "NS" flags in join (codes "+") flags

-- `"%v:%d => %v:%d"` of the two summaries.
endpoints : Ip → ℕ → Ip → ℕ → Text
endpoints src sport dst dport =
    ip_string src
    ++ (b':' ∷ (itoa sport ++ (codes " => " ++ (ip_string dst ++ (b':' ∷ itoa dport)))))

-- The payload argument is not used: the length is that of the header's own payload.
unfoldable pub summarize_tcp : Ipv4Header → TcpHeader → Bytes → Text
unfolding tcp_flags endpoints
summarize_tcp ipv4 tcp payload =
    codes "TCP "
    ++ (endpoints ipv4.src_ip tcp.src_port ipv4.dst_ip tcp.dst_port
        ++ (codes " "
            ++ (tcp_flags tcp
                ++ (codes " - Seq "
                    ++ (itoa tcp.seq
                        ++ (codes " - Ack "
                            ++ (itoa tcp.ack
                                ++ (codes " - Len " ++ itoa (length tcp.payload)))))))))

unfoldable pub summarize_udp : Ipv4Header → UdpHeader → Bytes → Text
unfolding endpoints
summarize_udp ipv4 udp payload =
    codes "UDP "
    ++ (endpoints ipv4.src_ip udp.src_port ipv4.dst_ip udp.dst_port
        ++ (codes " - Len " ++ itoa (length udp.payload)))
