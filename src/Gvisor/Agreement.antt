-- ===== src/Gvisor/Agreement.antt =====
-- The two stacks serve the subprocess alike.
use httptap.Shared.{
  ◌≡◌, refl, ap, sym, ◌∙◌, Bool, true, false, if◌then◌else◌, Option, none, some, List, [], ◌∷◌, map,
  same_refl, arith, Chan,
}
use mathlib.Core.List.{map-append}
use mathlib.Core.Option.{some-injective}
use httptap.Addr.{AddrPort}
use httptap.Packet.{Bytes, Ipv4Header, TcpHeader, UdpHeader, Gopacket}
use httptap.Mux.{Mux, RequestHandler, notify_tcp, notify_udp, first_match}
use httptap.Udp.{
  UdpPacket, Started, UdpStack, packet_for, responder_for, start as start_udp,
  handle_packet as handle_udp_packet,
}
use httptap.Udp.Replies.{udp_packet_dispatched}
use httptap.Tcp.{TcpStream, new_tcp_stream, local_addr as stream_addr}
use httptap.Tcp.Stack.{
  TcpStack, lookup, key_of, src_of, dst_of, spawn, syn_stage, opens, found_or_new, later_stages,
  fin_stage, ack_stage, payload_stage, handle_packet,
}
use httptap.Tcp.Isolation.{stream_before, lookup-insert, handle_packet_lem}
use httptap.Gvisor.{
  EndpointId, new_request, local_addr, remote_addr, UdpRead, datagram, closed, failed, start,
  forward_tcp, read_udp, forward_udp,
}

-- The end points of a connection, from its first packet.
abbrev pub id_of : Ipv4Header → TcpHeader → EndpointId
id_of ipv4 tcp = record { local = dst_of ipv4 tcp; remote = src_of ipv4 tcp }

open_fresh :
    (ipv4 : Ipv4Header) (tcp : TcpHeader)
    → tcp.syn_flag ≡ true
    → opens tcp (found_or_new none ipv4 tcp) ≡ true
unfolding new_tcp_stream
open_fresh ipv4 tcp syn = ground arith

-- No stage changes the end points of a stream.
abbrev SameEnds : TcpStream → TcpStream → Type 0
SameEnds s t = (s.world ≡ t.world) × (s.subprocess ≡ t.subprocess)

syn_ends : (tcp : TcpHeader) (s : TcpStream) → SameEnds (syn_stage tcp s) s
unfolding syn_stage
syn_ends tcp s = ground arith

later_ends :
    (g : Gopacket) (ipv4 : Ipv4Header) (tcp : TcpHeader) (s : TcpStream) (to : Chan Bytes)
    → SameEnds (later_stages g ipv4 tcp s to).0 s
unfolding later_stages fin_stage ack_stage payload_stage
later_ends g ipv4 tcp s to = ground arith

fresh_ends :
    (ipv4 : Ipv4Header) (tcp : TcpHeader)
    → let s = found_or_new none ipv4 tcp in
      (s.world ≡ dst_of ipv4 tcp) × (s.subprocess ≡ src_of ipv4 tcp)
unfolding new_tcp_stream
fresh_ends ipv4 tcp = (refl, refl)

module _ {H U : Type 0} where
  forward_tcp_lem :
      (id : EndpointId) (m : Mux H U)
      → m.locked ≡ false
      → forward_tcp id m ≡ some (m, first_match m.tcp_handlers id.local)
  unfolding forward_tcp notify_tcp
  forward_tcp_lem id m free = ground arith

  -- When the lock of the multiplexer is free, the SYN of a new connection makes the home-grown
  -- stack start the handler that the forwarder of gvisor starts for the same two end points, or
  -- none where it starts none; and the addresses that the handler sees are the same.
  pub tcp_stacks_agree :
      (g : Gopacket) (ipv4 : Ipv4Header) (tcp : TcpHeader) (st st' : TcpStack H U)
      → st.app.locked ≡ false
      → lookup (key_of ipv4 tcp) st.streams ≡ none
      → tcp.syn_flag ≡ true
      → handle_packet g ipv4 tcp st ≡ some st'
      → (h : Option (RequestHandler H)) × (forward_tcp (id_of ipv4 tcp) st.app ≡ some (st.app, h))
        × (st'.spawned ≡ spawn h (key_of ipv4 tcp) st.spawned)
        × (s : TcpStream) × (lookup (key_of ipv4 tcp) st'.streams ≡ some s)
        × (s.world ≡ local_addr (new_request (id_of ipv4 tcp)))
        × (s.subprocess ≡ remote_addr (new_request (id_of ipv4 tcp)))
  unfolding local_addr remote_addr
  tcp_stacks_agree g ipv4 tcp st st' free new syn e =
      let fresh = found_or_new none ipv4 tcp in
      let before : stream_before g ipv4 tcp st ≡ fresh = ap (λ o. found_or_new o ipv4 tcp) new in
      let later =
        later_stages g ipv4 tcp (syn_stage tcp (stream_before g ipv4 tcp st)) st.to_subprocess in
      let is_open : opens tcp (stream_before g ipv4 tcp st) ≡ true =
        ap (opens tcp) before ∙ open_fresh ipv4 tcp syn in
      let at_world : stream_addr (syn_stage tcp (stream_before g ipv4 tcp st)) ≡ dst_of ipv4 tcp =
        ap (λ s. stream_addr (syn_stage tcp s)) before
        ∙ (syn_ends tcp fresh).0
        ∙ (fresh_ends ipv4 tcp).0 in
      let is_st' = sym (some-injective _ _ (sym (handle_packet_lem g ipv4 tcp st free) ∙ e)) in
      (
        first_match st.app.tcp_handlers (dst_of ipv4 tcp),
        forward_tcp_lem (id_of ipv4 tcp) st.app free,
        ap (λ (x : TcpStack H U). x.spawned) is_st'
            ∙ ap
                (λ (b : Bool).
                  if b
                  then spawn
                      (first_match st.app.tcp_handlers
                        (stream_addr (syn_stage tcp (stream_before g ipv4 tcp st))))
                      (key_of ipv4 tcp) st.spawned
                  else st.spawned)
                is_open
            ∙ ap (λ a. spawn (first_match st.app.tcp_handlers a) (key_of ipv4 tcp) st.spawned)
                at_world,
        later.0,
        ap (λ (x : TcpStack H U). lookup (key_of ipv4 tcp) x.streams) is_st'
            ∙ lookup-insert (key_of ipv4 tcp) (key_of ipv4 tcp) later.0 st.streams
            ∙ ap (λ (b : Bool). if b then some later.0 else lookup (key_of ipv4 tcp) st.streams)
                (same_refl (key_of ipv4 tcp)),
        (later_ends g ipv4 tcp _ st.to_subprocess).0
            ∙ (syn_ends tcp (stream_before g ipv4 tcp st)).0
            ∙ ap (λ (s : TcpStream). s.world) before
            ∙ (fresh_ends ipv4 tcp).0,
        (later_ends g ipv4 tcp _ st.to_subprocess).1
            ∙ (syn_ends tcp (stream_before g ipv4 tcp st)).1
            ∙ ap (λ (s : TcpStream). s.subprocess) before
            ∙ (fresh_ends ipv4 tcp).1,
      )

-- The datagrams that are read before the connection is closed.
abbrev pub received : List UdpRead → List Bytes
received [] = []
received (closed ∷ reads) = []
received (failed e ∷ reads) = received reads
received (datagram payload ∷ reads) = payload ∷ received reads

abbrev pub udp_id_of : Ipv4Header → UdpHeader → EndpointId
udp_id_of ipv4 udp = record {
  local = record { addr = ipv4.dst_ip; port = udp.dst_port };
  remote = record { addr = ipv4.src_ip; port = udp.src_port };
}

-- A started handler without the way back.
abbrev pub served : {U : Type 0} → Started U → U × UdpPacket
served s = (s.handler, s.packet)

module _ {U : Type 0} (ipv4 : Ipv4Header) (udp : UdpHeader) where
  served-start :
      (h : Option U) (payload : Bytes) (l : List (Started U))
      → map served (start_udp h (responder_for ipv4 udp) (packet_for ipv4 udp payload) l)
        ≡ start h (packet_for ipv4 udp payload) (map served l)
  served-start none payload l = refl
  served-start (some h) payload l = map-append served l _

module _ {H U : Type 0} (ipv4 : Ipv4Header) (udp : UdpHeader) where
  -- The home-grown stack on datagrams with these headers.
  abbrev pub handle_datagrams : List Bytes → UdpStack H U → Option (UdpStack H U)
  handle_datagrams [] st = some st
  handle_datagrams (payload ∷ payloads) st = elim (handle_udp_packet ipv4 udp payload st) [
    | none ↦ none
    | some st' ↦ handle_datagrams payloads st'
  ]

  notify_udp_lem :
      (dst : AddrPort) (m : Mux H U)
      → m.locked ≡ false
      → notify_udp dst m ≡ some (m, first_match m.udp_handlers dst)
  unfolding notify_udp
  notify_udp_lem dst m free = ground arith

  -- When the lock of the multiplexer is free, the loop of gvisor's UDP forwarder, whatever errors
  -- its reads report, starts the same handlers with the same packets in the same order as the
  -- home-grown stack does for the datagrams that are read before the connection is closed; both
  -- leave the multiplexer as it was.
  pub udp_stacks_agree :
      (reads : List UdpRead) (st : UdpStack H U)
      → st.app.locked ≡ false
      → (st' : UdpStack H U) × (handle_datagrams (received reads) st ≡ some st')
        × (st'.app ≡ st.app)
        × (forward_udp (udp_id_of ipv4 udp) none reads (st.app, map served st.started)
            ≡ some (st.app, map served st'.started))
  unfolding forward_udp read_udp packet_for
  udp_stacks_agree [] st free = (st, refl, refl, refl)
  udp_stacks_agree (closed ∷ reads) st free = (st, refl, refl, refl)
  udp_stacks_agree (failed e ∷ reads) st free = udp_stacks_agree reads st free
  udp_stacks_agree (datagram payload ∷ reads) st free =
      let id = udp_id_of ipv4 udp in
      let h = first_match st.app.udp_handlers id.local in
      let l = start_udp h (responder_for ipv4 udp) (packet_for ipv4 udp payload) st.started in
      let (st', e, same_app, f) = udp_stacks_agree reads (record st { started = l }) free in
      (
        st',
        ap
              (λ o. elim o as (λ _. Option (UdpStack H U)) [
                | none ↦ none
                | some x ↦ handle_datagrams (received reads) x
              ])
              (udp_packet_dispatched ipv4 udp payload st free).0
            ∙ e,
        same_app,
        ap
              (λ (o : Option (Mux H U × Option U)).
                elim o as (λ _. Option (Mux H U × List (U × UdpPacket))) [
                  | none ↦ none
                  | some (m', h) ↦
                      read_udp id reads
                        (m', start h (packet_for ipv4 udp payload) (map served st.started))
                ])
              (notify_udp_lem id.local st.app free)
            ∙ ap (λ k. read_udp id reads (st.app, k))
                (sym (served-start ipv4 udp h payload st.started))
            ∙ f,
      )
