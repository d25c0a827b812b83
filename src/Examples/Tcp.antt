-- ===== src/Examples/Tcp.antt =====
-- The theorems on tcp.go, for a handshake, three bytes of data and a FIN.
use httptap.Shared.{
  suc, map, List, length, ℕ, ◌≤◌, ◌≡◌, ◌≢◌, refl, ap, ◌∙◌, same_refl, true, false, ◌&&◌, ltb,
  if◌then◌else◌, ◌⊎◌, none, some, [], ◌∷◌, Text, codes, make_chan, send, arith, error, eof, ok, err,
}
use httptap.Addr.{AddrPort, srcdst}
use httptap.Packet.{Ipv4Header, TcpHeader}
use httptap.Mux.{first_match}
use httptap.Tcp.{
  deliver_to_application, init, syn_received, connected, other_side_finished, finished, u32,
  TcpStream, new_tcp_stream, accept, accept_header, write_header, close_header, read, returned,
  local_addr,
}
use httptap.Tcp.Stack.{
  fin_stage, ack_stage, payload_stage, TcpStack, new_tcp_stack, key_of, lookup, insert,
  found_or_new, opens, spawn, syn_stage, later_stages,
}
use httptap.Tcp.Isolation.{lookup-insert, stream_before, handle_packet_lem, handle_packet_isolated}
use httptap.Tcp.Handshake.{after, packet_states, syn_ack_off_by_one}
use httptap.Tcp.Sequence.{write_all, sequence_continues}
use httptap.Tcp.Stream.{read_all}
use httptap.Tcp.Connections.{no_connections, on_packets, handle_packets, keyed}
use httptap.Tcp.Refinement.{handle_packets_refine}
use httptap.Tcp.Life.{Reach, here, next, packet, times_spawned}
use httptap.Tcp.Transport.{packets_of, segments_arrive}
use httptap.Tcp.Life.Reachable.{handled_once, reachable_never_eof}
use httptap.Forward.{still_reading}
use httptap.Forward.Copied.{chunks}
use httptap.Forward.Arrived.{buffer_size, reads_until_wait, forwarded, segments_forwarded}
use httptap.Tcp.{read, blocked}
use httptap.Examples.Data.{
  client, server, resolver, packets, ip_out, syn, ack_with_data, fin, web_mux, link,
}

abbrev pub fresh : TcpStack ℕ ℕ
fresh = new_tcp_stack web_mux link

-- The stack after a packet.
abbrev pub stepped : TcpHeader → TcpStack ℕ ℕ → TcpStack ℕ ℕ
stepped tcp st =
    let before = stream_before packets ip_out tcp st in
    let later = later_stages packets ip_out tcp (syn_stage tcp before) st.to_subprocess in
    record st {
      streams = insert (key_of ip_out tcp) later.0 st.streams;
      to_subprocess = later.1;
      spawned =
          if opens tcp before
          then spawn (first_match st.app.tcp_handlers (local_addr (syn_stage tcp before)))
              (key_of ip_out tcp) st.spawned
          else st.spawned;
    }

abbrev pub opened : TcpStack ℕ ℕ
opened = stepped syn fresh

abbrev talking : TcpStack ℕ ℕ
talking = stepped ack_with_data opened

to_talking : Reach packets fresh talking
unfolding new_tcp_stack
to_talking =
    next
      (next here
        (packet ip_out syn (omega arith) (handle_packet_lem packets ip_out syn fresh refl)))
      (packet ip_out ack_with_data (omega arith)
        (handle_packet_lem packets ip_out ack_with_data opened refl))

abbrev web_key : Text
web_key = srcdst client server

handled_once_example :
    (times_spawned web_key talking.spawned ≤ 1)
    × (lookup web_key talking.streams ≡ none → times_spawned web_key talking.spawned ≡ 0)
    × ((s : TcpStream)
        → lookup web_key talking.streams ≡ some s
        → s.state ≡ init
        → times_spawned web_key talking.spawned ≡ 0)
handled_once_example =
    handled_once packets web_mux link talking refl (omega arith) to_talking web_key

abbrev half_open : TcpStream
half_open = record (new_tcp_stream server client) { state = syn_received; ack = 8 }

abbrev open_stream : TcpStream
open_stream = record half_open {
  state = connected;
  seq = 5;
  from_subprocess = record (make_chan 8) { items = codes "GET" ∷ [] ∷ codes "/" ∷ [] };
}

abbrev full_stream : TcpStream
full_stream = record open_stream {
  from_subprocess = record (make_chan 1) { items = codes "GET" ∷ [] };
}

-- The stream of the connection in the last stack.
abbrev found : TcpStream
found =
    (later_stages packets ip_out ack_with_data
      (syn_stage ack_with_data (stream_before packets ip_out ack_with_data opened))
      opened.to_subprocess).0

found_there : lookup web_key talking.streams ≡ some found
found_there = lookup-insert web_key web_key found opened.streams ∙ rw (same_refl web_key) refl

reachable_never_eof_example : (read 100 found).1 ≢ returned (err eof)
reachable_never_eof_example =
    reachable_never_eof packets web_mux link talking refl (omega arith) to_talking web_key found 100
      found_there

handle_packet_isolated_example :
    lookup (srcdst client resolver) talking.streams ≡ lookup (srcdst client resolver) opened.streams
unfolding new_tcp_stack
handle_packet_isolated_example =
    handle_packet_isolated packets ip_out ack_with_data opened client resolver talking tt tt tt tt
      (λ e. omega (arith, ap (λ (a : AddrPort). a.port) e.1)) refl
      (handle_packet_lem packets ip_out ack_with_data opened refl)

packet_states_example :
    let t = after packets ip_out ack_with_data half_open link in
    (t.state ≡ init → (half_open.state ≡ init) × (ack_with_data.syn_flag ≡ false))
    × (t.state ≡ syn_received
        → ((half_open.state ≡ syn_received)
            ⊎ ((half_open.state ≡ init) × (ack_with_data.syn_flag ≡ true)))
          × (ack_with_data.ack_flag ≡ false)
          × (ack_with_data.fin_flag ≡ false))
    × (t.state ≡ connected
        → (half_open.state ≡ connected)
          ⊎ ((ack_with_data.ack_flag ≡ true)
              × ((half_open.state ≡ syn_received)
                  ⊎ ((half_open.state ≡ init) × (ack_with_data.syn_flag ≡ true)))))
    × (t.state ≡ other_side_finished
        → (half_open.state ≡ other_side_finished) ⊎ (ack_with_data.fin_flag ≡ true))
    × (t.state ≡ finished → half_open.state ≡ finished)
packet_states_example = packet_states packets ip_out ack_with_data half_open link

syn_ack_off_by_one_example :
    let s = after packets ip_out syn (found_or_new none ip_out syn) link in
    (s.state ≡ syn_received) × (s.ack ≡ u32 8) × ((accept_header s).ack ≡ u32 9)
syn_ack_off_by_one_example = syn_ack_off_by_one packets ip_out syn link refl refl refl

sequence_continues_example :
    let ps = codes "200" ∷ codes " OK" ∷ [] in
    let s' =
      (write_all packets ps
        (accept packets half_open link).0
        (accept packets half_open link).1).0 in
    ((accept_header half_open).seq ≡ 0)
    × ((write_header s' (codes "!")).seq ≡ u32 7)
    × ((close_header s').seq ≡ u32 7)
unfolding new_tcp_stream
sequence_continues_example =
    sequence_continues packets half_open link (codes "200" ∷ codes " OK" ∷ []) (codes "!")
      (omega arith)

abbrev exchange : List (Ipv4Header × TcpHeader)
exchange = (ip_out, syn) ∷ (ip_out, ack_with_data) ∷ (ip_out, fin) ∷ []

handle_packets_refine_example :
    let a = on_packets packets web_mux exchange (no_connections link) in
    (st' : TcpStack ℕ ℕ) × (handle_packets packets exchange fresh ≡ some st')
    × (lookup (srcdst client server) st'.streams ≡ a.table client server)
    × (st'.to_subprocess ≡ a.link)
    × (st'.spawned ≡ map keyed a.started)
handle_packets_refine_example =
    handle_packets_refine packets web_mux refl exchange link client server
      ((tt, tt), ((tt, tt), ((tt, tt), tt))) tt tt

-- The stream of the connection that is talking.
abbrev talking_stream : TcpStream
talking_stream =
    let before = stream_before packets ip_out ack_with_data opened in
    (later_stages packets ip_out ack_with_data (syn_stage ack_with_data before)
      opened.to_subprocess).0

is_talking : lookup web_key talking.streams ≡ some talking_stream
is_talking =
    lookup-insert web_key web_key talking_stream opened.streams ∙ rw (same_refl web_key) refl

-- A segment that is sent again arrives again.
segments_arrive_example :
    (st' : TcpStack ℕ ℕ) × (handle_packets packets
        (packets_of ip_out (ack_with_data ∷ ack_with_data ∷ []))
        talking
      ≡ some st')
    × (last : TcpStream) × (lookup web_key st'.streams ≡ some last)
    × (read_all (suc (length last.from_subprocess.items)) 100 last
        ≡ codes "GET" ∷ codes "GET" ∷ codes "GET" ∷ [])
unfolding later_stages fin_stage ack_stage payload_stage syn_stage lookup insert new_tcp_stream
    new_tcp_stack deliver_to_application srcdst httptap.Addr.addr_port_string httptap.Addr.ip_string
    httptap.Shared.itoa
segments_arrive_example =
    segments_arrive packets ip_out web_key 100 (ack_with_data ∷ ack_with_data ∷ []) talking
      talking_stream refl is_talking refl refl (omega arith) (omega arith, tt)
      (
        (refl, refl, refl, omega arith, omega arith),
        ((refl, refl, refl, omega arith, omega arith), tt),
      )

segments_forwarded_example :
    (st' : TcpStack ℕ ℕ) × (last : TcpStream) × (handle_packets packets
        (packets_of ip_out (ack_with_data ∷ ack_with_data ∷ []))
        talking
      ≡ some st')
    × (lookup web_key st'.streams ≡ some last)
    × (chunks (forwarded (λ k b. none) last).0 ≡ codes "GET" ∷ codes "GET" ∷ codes "GET" ∷ [])
    × ((forwarded (λ k b. none) last).1 ≡ still_reading)
    × ((read buffer_size
          (reads_until_wait (suc (length last.from_subprocess.items)) buffer_size last).1).1
        ≡ blocked)
unfolding later_stages fin_stage ack_stage payload_stage syn_stage lookup insert new_tcp_stream
    new_tcp_stack deliver_to_application srcdst httptap.Addr.addr_port_string httptap.Addr.ip_string
    httptap.Shared.itoa
segments_forwarded_example =
    segments_forwarded packets ip_out web_key (ack_with_data ∷ ack_with_data ∷ []) talking
      talking_stream (λ k b. none) refl is_talking refl refl (omega arith) (omega arith, tt)
      (
        (refl, refl, refl, omega arith, omega arith),
        ((refl, refl, refl, omega arith, omega arith), tt),
      )
