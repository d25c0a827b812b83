-- ===== src/Tcp/Stack.antt =====
-- tcpStack of tcp.go: one stream for each pair of end points, and the handling of a packet. The
-- handlers that notifyTCP starts in goroutines are recorded in `spawned`, each with the key of its
-- stream.
use httptap.Shared.{
  ◌+◌, ◌++◌, Bool, true, false, not, ◌&&◌, ltb, Option, none, some, List, [], ◌∷◌, Text, same,
  length, if◌then◌else◌, Result, ok, err, Chan, send,
}
use httptap.Addr.{AddrPort, srcdst}
use httptap.Packet.{
  Bytes, Ipv4Header, TcpHeader, zero_tcp, reply_ipv4, tcp_protocol, reply_window, Gopacket,
  serialize_tcp,
}
use httptap.Mux.{Mux, RequestHandler, notify_tcp}
use httptap.Tcp.{
  init, syn_received, connected, other_side_finished, state_is, u32, sub_u32, TcpStream,
  new_tcp_stream, advance, deliver_to_application, local_addr,
}

-- map[string]*tcpStream.
unfoldable pub lookup : Text → List (Text × TcpStream) → Option TcpStream
lookup k [] = none
lookup k ((j, s) ∷ m) = if same j k then some s else lookup k m

unfoldable pub insert : Text → TcpStream → List (Text × TcpStream) → List (Text × TcpStream)
insert k s [] = (k, s) ∷ []
insert k s ((j, t) ∷ m) = if same j k then (k, s) ∷ m else (j, t) ∷ insert k s m

pub record TcpStack (H U : Type 0) : Type 0 where
  pub streams : List (Text × TcpStream)
  pub to_subprocess : Chan Bytes
  pub app : Mux H U
  pub spawned : List (RequestHandler H × Text)

unfoldable pub new_tcp_stack : {H U : Type 0} → Mux H U → Chan Bytes → TcpStack H U
new_tcp_stack app link = record { streams = []; to_subprocess = link; app = app; spawned = [] }

-- The end points of a packet.
abbrev pub src_of : Ipv4Header → TcpHeader → AddrPort
src_of ipv4 tcp = record { addr = ipv4.src_ip; port = tcp.src_port }

abbrev pub dst_of : Ipv4Header → TcpHeader → AddrPort
dst_of ipv4 tcp = record { addr = ipv4.dst_ip; port = tcp.dst_port }

abbrev pub key_of : Ipv4Header → TcpHeader → Text
key_of ipv4 tcp = srcdst (src_of ipv4 tcp) (dst_of ipv4 tcp)

-- `stream, found := s.streamsBySrcDst[srcdst]`, and the new stream where none is found.
abbrev pub found_or_new : Option TcpStream → Ipv4Header → TcpHeader → TcpStream
found_or_new (some s) ipv4 tcp = s
found_or_new none ipv4 tcp = record (new_tcp_stream (dst_of ipv4 tcp) (src_of ipv4 tcp)) {
  ack = tcp.seq;
}

-- The header of the FIN+ACK reply.
unfoldable pub fin_header : TcpHeader → TcpStream → TcpHeader
fin_header tcp s = record zero_tcp {
  src_port = tcp.dst_port;
  dst_port = tcp.src_port;
  fin_flag = true;
  ack_flag = true;
  seq = sub_u32 (advance 1 s).seq 1;
  ack = u32 (tcp.seq + 1);
  window = reply_window;
}

-- Connection teardown; the flag tells that the handler returns early.
abbrev pub sent_fin : TcpStream → Chan Bytes → Result Bytes → TcpStream × Chan Bytes × Bool
sent_fin s to (ok packet) = (s, send to packet, false)
sent_fin s to (err e) = (s, to, true)

unfoldable pub fin_stage :
    Gopacket → Ipv4Header → TcpHeader → TcpStream → Chan Bytes → TcpStream × Chan Bytes × Bool
unfolding fin_header
fin_stage g ipv4 tcp s to =
    if tcp.fin_flag && not (state_is s.state init)
    then sent_fin (record (advance 1 s) { state = other_side_finished; ack = u32 (tcp.seq + 1) }) to
        (serialize_tcp g (reply_ipv4 tcp_protocol ipv4.dst_ip ipv4.src_ip) (fin_header tcp s) [])
    else (s, to, false)

unfoldable pub ack_stage : TcpHeader → TcpStream → TcpStream
ack_stage tcp s =
    if tcp.ack_flag && state_is s.state syn_received then record s { state = connected } else s

unfoldable pub payload_stage : TcpHeader → TcpStream → TcpStream
unfolding deliver_to_application
payload_stage tcp s =
    if not tcp.syn_flag && ltb 0 (length tcp.payload) && state_is s.state connected
    then deliver_to_application tcp.payload
        (record s { ack = u32 (tcp.seq + u32 (length tcp.payload)) })
    else s

-- What follows connection establishment.
unfoldable pub later_stages :
    Gopacket → Ipv4Header → TcpHeader → TcpStream → Chan Bytes → TcpStream × Chan Bytes
later_stages g ipv4 tcp s to =
    let (s', to', early) = fin_stage g ipv4 tcp s to in
    if early then (s', to') else (payload_stage tcp (ack_stage tcp s'), to')

-- Connection establishment, as far as the stream goes.
abbrev pub opens : TcpHeader → TcpStream → Bool
opens tcp s = tcp.syn_flag && state_is s.state init

unfoldable pub syn_stage : TcpHeader → TcpStream → TcpStream
syn_stage tcp s =
    if opens tcp s then record s { state = syn_received; ack = u32 (tcp.seq + 1) } else s

abbrev pub spawn :
    {H : Type 0}
    → Option (RequestHandler H)
    → Text
    → List (RequestHandler H × Text)
    → List (RequestHandler H × Text)
spawn none key l = l
spawn (some h) key l = l ++ (h, key) ∷ []

module _ {H U : Type 0} where
  -- notifyTCP, where the packet opens the stream. `none` is a multiplexer whose lock is never free.
  unfoldable pub notify_stage : Bool → Text → TcpStream → TcpStack H U → Option (TcpStack H U)
  notify_stage false key s st = some st
  notify_stage true key s st = elim (notify_tcp (local_addr s) st.app) [
    | none ↦ none
    | some (app', h) ↦ some (record st { app = app'; spawned = spawn h key st.spawned })
  ]

  unfoldable pub handle_packet :
      Gopacket → Ipv4Header → TcpHeader → TcpStack H U → Option (TcpStack H U)
  handle_packet g ipv4 tcp st =
      let key = key_of ipv4 tcp in
      let stream = found_or_new (lookup key st.streams) ipv4 tcp in
      elim (notify_stage (opens tcp stream) key (syn_stage tcp stream) st) [
        | none ↦ none
        | some st' ↦
            let (s', to') = later_stages g ipv4 tcp (syn_stage tcp stream) st'.to_subprocess in
            some (record st' { streams = insert key s' st'.streams; to_subprocess = to' })
      ]
