-- ===== src/Tcp.antt =====
-- tcp.go: the states of a connection, and tcpStream with its net.Conn methods. A method takes the
-- stream and the channel to the subprocess, which all streams share, and returns them with its
-- result. The serialisation buffer is cleared by each use and is no part of the state; a copy of
-- a packet is the packet.
pub mod Stack
pub mod Stream
pub mod Sequence
pub mod Handshake
pub mod Isolation
pub mod Connections
pub mod Refinement
pub mod Transport
pub mod Life
use httptap.Shared.{
  ℕ, ◌+◌, ◌-◌, ◌%◌, ◌^◌, ◌++◌, Bool, true, false, ◌==◌, ltb, Option, none, some, List, [], ◌∷◌,
  Text, codes, itoa, length, Error, error, wrap, eof, Result, ok, err, if◌then◌else◌, Chan,
  make_chan, send, room,
}
use httptap.Addr.{AddrPort}
use httptap.Packet.{
  Bytes, Ipv4Header, TcpHeader, zero_tcp, reply_ipv4, tcp_protocol, reply_window, Gopacket,
  serialize_tcp,
}

pub data TcpState : Type 0 where
  init syn_received connected other_side_finished finished : TcpState

-- The constants: `iota + 1`.
abbrev pub state_number : TcpState → ℕ
state_number init = 1
state_number syn_received = 2
state_number connected = 3
state_number other_side_finished = 4
state_number finished = 5

-- TCPState.String, on the integer that a TCPState is.
unfoldable pub state_string : ℕ → Text
state_string s =
    if s == 1
    then codes "StateInit"
    else if s == 2
    then codes "StateSynchronizing"
    else if s == 3
    then codes "StateConnected"
    else if s == 4
    then codes "StateOtherSideFinished"
    else if s == 5
    then codes "StateFinished"
    else codes "unknown(" ++ (itoa s ++ codes ")")

abbrev pub state_is : TcpState → TcpState → Bool
state_is s t = state_number s == state_number t

-- uint32 arithmetic.
abbrev pub u32 : ℕ → ℕ
u32 n = n % 4294967296

-- `atomic.AddUint32(&x, d) - d`, where the sum is `x'`.
abbrev pub sub_u32 : ℕ → ℕ → ℕ
sub_u32 x' d = u32 (x' + 4294967296 - d)

pub record TcpStream : Type 0 where
  pub subprocess : AddrPort
  pub world : AddrPort
  pub from_subprocess : Chan Bytes
  pub state : TcpState
  pub seq : ℕ  -- uint32
  pub ack : ℕ  -- uint32

unfoldable pub new_tcp_stream : AddrPort → AddrPort → TcpStream
new_tcp_stream world subprocess = record {
  subprocess = subprocess;
  world = world;
  from_subprocess = make_chan 1024;
  state = init;
  seq = 0;
  ack = 0;
}

-- LocalAddr and RemoteAddr of a stream.
abbrev pub local_addr : TcpStream → AddrPort
local_addr s = s.world

abbrev pub remote_addr : TcpStream → AddrPort
remote_addr s = s.subprocess

-- SetDeadline, SetReadDeadline and SetWriteDeadline: nothing happens.
abbrev pub set_deadline : ℕ → TcpStream → TcpStream × Result (Unit {0})
set_deadline t s = (s, ok tt)

-- What the headers of Accept, Reject, Write and Close have in common.
abbrev pub reply_tcp : TcpStream → ℕ → ℕ → TcpHeader
reply_tcp s seq ack = record zero_tcp {
  src_port = s.world.port;
  dst_port = s.subprocess.port;
  seq = seq;
  ack = ack;
  ack_flag = true;
  window = reply_window;
}

abbrev pub reply_ip : TcpStream → Ipv4Header
reply_ip s = reply_ipv4 tcp_protocol s.world.addr s.subprocess.addr

-- The stream after `atomic.AddUint32(&s.seq, n)`, and the header that Accept sends.
abbrev pub advance : ℕ → TcpStream → TcpStream
advance n s = record s { seq = u32 (s.seq + n) }

unfoldable pub accept_header : TcpStream → TcpHeader
accept_header s = record (reply_tcp s (sub_u32 (advance 1 s).seq 1) (u32 (s.ack + 1))) {
  syn_flag = true;
}

unfoldable pub reject_header : TcpStream → TcpHeader
reject_header s = record (reply_tcp s (sub_u32 (advance 1 s).seq 1) (u32 (s.ack + 1))) {
  rst_flag = true;
}

unfoldable pub write_header : TcpStream → Bytes → TcpHeader
write_header s payload =
    let sz = u32 (length payload) in reply_tcp s (sub_u32 (advance sz s).seq sz) s.ack

unfoldable pub close_header : TcpStream → TcpHeader
close_header s = record (reply_tcp s (sub_u32 (advance 1 s).seq 1) s.ack) { fin_flag = true }

-- A method's outcome: the stream, the channel to the subprocess and what is returned.
abbrev pub Outcome : Type 0 → Type 0
Outcome A = TcpStream × Chan Bytes × Result A

-- A packet is sent unless it would block; an error in serialising it is returned.
abbrev pub emit : TcpStream → Chan Bytes → Result Bytes → Outcome (Unit {0})
emit s to (ok packet) = (s, send to packet, ok tt)
emit s to (err e) = (s, to, err (wrap "error serializing reply TCP" e))

-- The result of Write: here a full channel is an error.
abbrev pub emit_write : TcpStream → Chan Bytes → ℕ → Result Bytes → Outcome ℕ
emit_write s to n (err e) = (s, to, err (wrap "error serializing TCP packet" e))
emit_write s to n (ok packet) =
    if room to then (s, send to packet, ok n) else (s, to, err (error "channel would have blocked"))

-- `for packet := range s.fromSubprocess` of Read.
pub data ReadOutcome : Type 0 where
  blocked : ReadOutcome
  returned : Result Bytes → ReadOutcome

unfoldable pub read_loop : ℕ → Bool → List Bytes → List Bytes × ReadOutcome
read_loop size closed [] = ([], if closed then returned (err eof) else blocked)
read_loop size closed (packet ∷ packets) =
    let rest = read_loop size closed packets in
    if length packet == 0
    then rest
    else if ltb size (length packet)
    then (packets, returned (err (error "received packet exceeds the receive buffer")))
    else (packets, returned (ok packet))

-- Read into a buffer of `size` bytes.
unfoldable pub read : ℕ → TcpStream → TcpStream × ReadOutcome
unfolding read_loop
read size s =
    let (rest, out) = read_loop size s.from_subprocess.closed s.from_subprocess.items in
    (record s { from_subprocess = record s.from_subprocess { items = rest } }, out)

unfoldable pub deliver_to_application : Bytes → TcpStream → TcpStream
deliver_to_application payload s = record s { from_subprocess = send s.from_subprocess payload }

module _ (g : Gopacket) where
  unfoldable pub accept : TcpStream → Chan Bytes → Outcome (Unit {0})
  unfolding accept_header
  accept s to = emit (advance 1 s) to (serialize_tcp g (reply_ip s) (accept_header s) [])

  -- An error is logged, not returned.
  unfoldable pub reject : TcpStream → Chan Bytes → TcpStream × Chan Bytes
  unfolding reject_header
  reject s to =
      let out = emit (advance 1 s) to (serialize_tcp g (reply_ip s) (reject_header s) []) in
      (out.0, out.1)

  unfoldable pub write : Bytes → TcpStream → Chan Bytes → Outcome ℕ
  unfolding write_header
  write payload s to =
      let s' = advance (u32 (length payload)) s in
      elim (g.network_layer (reply_ip s)) [
        | some e ↦ (s', to, err (wrap "error setting network-layer TCP checksums" e))
        | none ↦
            emit_write s' to (length payload)
              (serialize_tcp g (reply_ip s) (write_header s payload) payload)
      ]

  unfoldable pub send_fin : TcpStream → Chan Bytes → Outcome (Unit {0})
  unfolding close_header
  send_fin s to =
      emit (record (advance 1 s) { state = finished }) to
        (serialize_tcp g (reply_ip s) (close_header s) [])

  unfoldable pub close : TcpStream → Chan Bytes → Outcome (Unit {0})
  close s to = elim s.state [
    | init ↦ (s, to, err (error "cannot close TCP stream in state StateInit"))
    | finished ↦ (s, to, ok tt)
    | _ ↦ send_fin s to
  ]
