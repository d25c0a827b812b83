-- ===== src/Tcp/Life.antt =====
-- The stack as its packets arrive, the applications call the methods of their streams, and the
-- device takes packets off the channel, on which the UDP stack sends too, in any order.
pub mod Keeps
pub mod Steps
pub mod Reachable
use httptap.Shared.{
  ℕ, suc, ◌+◌, ◌%◌, ◌≤◌, ◌<◌, ◌≡◌, ◌≢◌, refl, ap, ◌∙◌, sym, Bool, true, false, Option, none, some,
  List, [], ◌∷◌, ◌++◌, Text, same, same_iff, same_refl, length, length-append, if◌then◌else◌, arith,
  Chan, send, room, make_chan, IsBounded, send-IsBounded, Bool-cases, inl, inr, ◌⊎◌, Result, ok,
  err, eof, ◌&&◌, not, ltb,
}
use httptap.Addr.{AddrPort, srcdst}
use httptap.Packet.{Bytes, Ipv4Header, TcpHeader, Gopacket}
use httptap.Mux.{Mux, RequestHandler, first_match}
use httptap.Tcp.{
  TcpState, init, syn_received, state_is, u32, TcpStream, new_tcp_stream, local_addr, accept,
  reject, write, close, read, ReadOutcome, returned, Outcome, advance,
}
use httptap.Tcp.Stack.{
  lookup, insert, TcpStack, new_tcp_stack, key_of, src_of, dst_of, found_or_new, opens, spawn,
  syn_stage, later_stages, handle_packet,
}
use httptap.Tcp.Isolation.{lookup-insert, stream_before, handle_packet_lem, handle_packet-streams}

-- A call of a method of a stream: the stream and the shared channel, before and after.
pub data Method (g : Gopacket) (s : TcpStream) (to : Chan Bytes)
    : TcpStream → Chan Bytes → Type 0 where
  call_accept : Method g s to (accept g s to).0 (accept g s to).1
  call_reject : Method g s to (reject g s to).0 (reject g s to).1
  call_write : (payload : Bytes) → Method g s to (write g payload s to).0 (write g payload s to).1
  call_close : Method g s to (close g s to).0 (close g s to).1
  call_read : (size : ℕ) → Method g s to (read size s).0 to

module _ {H U : Type 0} (g : Gopacket) where
  pub data Step (st st' : TcpStack H U) : Type 0 where
    packet :
        (ipv4 : Ipv4Header) (tcp : TcpHeader)
        → tcp.seq < 4294967296
        → handle_packet g ipv4 tcp st ≡ some st'
        → Step st st'
    method :
        (key : Text) (s s' : TcpStream) (to' : Chan Bytes)
        → lookup key st.streams ≡ some s
        → Method g s st.to_subprocess s' to'
        → st' ≡ record st { streams = insert key s' st.streams; to_subprocess = to' }
        → Step st st'
    transmit :
        (packet : Bytes) (rest : List Bytes)
        → st.to_subprocess.items ≡ packet ∷ rest
        → st' ≡ record st { to_subprocess = record st.to_subprocess { items = rest } }
        → Step st st'
    datagram :
        (packet : Bytes)
        → st' ≡ record st { to_subprocess = send st.to_subprocess packet }
        → Step st st'

  pub data Reach (st : TcpStack H U) : TcpStack H U → Type 0 where
    here : Reach st st
    next : {t u : TcpStack H U} → Reach st t → Step t u → Reach st u

-- How often a handler was started for a stream.
abbrev pub times_spawned : {H : Type 0} → Text → List (RequestHandler H × Text) → ℕ
times_spawned k [] = 0
times_spawned k ((h, j) ∷ l) = let rest = times_spawned k l in if same j k then suc rest else rest

-- What holds of every stream of the stack: its key is made of its end points, the counters are
-- 32-bit numbers, and the application's channel is open and within its size of 1024.
pub record IsGood (key : Text) (s : TcpStream) : Type 0 where
  pub keyed : key ≡ srcdst s.subprocess s.world
  pub seq_word : s.seq < 4294967296
  pub ack_word : s.ack < 4294967296
  pub channel_size : s.from_subprocess.size ≡ 1024
  pub channel_bound : length s.from_subprocess.items ≤ 1024
  pub channel_open : s.from_subprocess.closed ≡ false

-- A handler was started at most once for a stream, and not before its SYN.
abbrev pub spawn_limit : Option TcpStream → ℕ
spawn_limit none = 0
spawn_limit (some s) = if state_is s.state init then 0 else 1

pub record Inv {H U : Type 0} (st : TcpStack H U) : Type 0 where
  pub unlocked : st.app.locked ≡ false
  pub bounded : IsBounded st.to_subprocess
  pub good : (key : Text) (s : TcpStream) → lookup key st.streams ≡ some s → IsGood key s
  pub once : (key : Text) → times_spawned key st.spawned ≤ spawn_limit (lookup key st.streams)
