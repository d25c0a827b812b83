-- ===== src/Tcp/Handshake.antt =====
-- What one packet does to its stream: the states, the acknowledgement number, the payload.
use httptap.Shared.{
  ◌+◌, ◌<◌, ◌≡◌, ◌≢◌, true, false, not, ◌&&◌, none, [], ◌⊎◌, length, ok, Chan, send, room, ltb,
  arith, if◌then◌else◌,
}
use httptap.Packet.{Bytes, Ipv4Header, TcpHeader, Gopacket, serialize_tcp, reply_ipv4, tcp_protocol}
use httptap.Tcp.{
  init, syn_received, connected, other_side_finished, finished, state_is, u32, TcpStream,
  accept_header, new_tcp_stream,
}
use httptap.Tcp.Stack.{
  syn_stage, later_stages, fin_stage, ack_stage, payload_stage, fin_header, found_or_new,
}

-- The stream after a packet, for a stream that the packet finds.
abbrev pub after : Gopacket → Ipv4Header → TcpHeader → TcpStream → Chan Bytes → TcpStream
after g ipv4 tcp s to = (later_stages g ipv4 tcp (syn_stage tcp s) to).0

module _ (g : Gopacket) (ipv4 : Ipv4Header) (tcp : TcpHeader) (s : TcpStream)
    (to : Chan Bytes) where
  -- A packet leaves the initial state only by a SYN, and none leads back to it. The state
  -- SynReceived is entered only from the initial state by a SYN, and left by an ACK or a FIN.
  -- Connected is entered only by an ACK, from SynReceived or with a SYN from the initial state.
  -- OtherSideFinished is entered only by a FIN, and Finished never.
  pub packet_states :
      let t = after g ipv4 tcp s to in
      (t.state ≡ init → (s.state ≡ init) × (tcp.syn_flag ≡ false))
      × (t.state ≡ syn_received
          → ((s.state ≡ syn_received) ⊎ ((s.state ≡ init) × (tcp.syn_flag ≡ true)))
            × (tcp.ack_flag ≡ false)
            × (tcp.fin_flag ≡ false))
      × (t.state ≡ connected
          → (s.state ≡ connected)
            ⊎ ((tcp.ack_flag ≡ true)
                × ((s.state ≡ syn_received) ⊎ ((s.state ≡ init) × (tcp.syn_flag ≡ true)))))
      × (t.state ≡ other_side_finished → (s.state ≡ other_side_finished) ⊎ (tcp.fin_flag ≡ true))
      × (t.state ≡ finished → s.state ≡ finished)
  unfolding later_stages fin_stage ack_stage payload_stage syn_stage
  packet_states = (
    λ h. ground arith,
    λ h. ground arith,
    λ h. ground arith,
    λ h. ground arith,
    λ h. ground arith,
  )

  -- A packet hands its payload to the application's channel exactly if it is no SYN, has a payload,
  -- and leaves the stream connected; otherwise that channel is as before.
  pub packet_delivers :
      let t = after g ipv4 tcp s to in
      t.from_subprocess ≡ (
        if not tcp.syn_flag && (ltb 0 (length tcp.payload) && state_is t.state connected)
        then send s.from_subprocess tcp.payload
        else s.from_subprocess)
  unfolding later_stages fin_stage ack_stage payload_stage syn_stage
  packet_delivers = ground arith

  -- When the application's channel is full, the payload of a connected stream is dropped, and yet
  -- acknowledged: the next segment to the subprocess confirms all of its bytes.
  packet_dropped :
      s.state ≡ connected
      → tcp.syn_flag ≡ false
      → tcp.fin_flag ≡ false
      → 0 < length tcp.payload
      → room s.from_subprocess ≡ false
      → let t = after g ipv4 tcp s to in
        (t.from_subprocess ≡ s.from_subprocess) × (t.ack ≡ u32 (tcp.seq + u32 (length tcp.payload)))
  unfolding later_stages fin_stage ack_stage payload_stage syn_stage
  packet_dropped c ns nf len full = (ground arith, ground arith)

  -- A FIN on a stream that has left the initial state is answered, once it can be serialised, by
  -- one segment, unless that would block; it takes one sequence number.
  packet_fin :
      (reply : Bytes)
      → tcp.fin_flag ≡ true
      → s.state ≢ init
      → serialize_tcp g (reply_ipv4 tcp_protocol ipv4.dst_ip ipv4.src_ip) (fin_header tcp s) []
        ≡ ok reply
      → later_stages g ipv4 tcp (syn_stage tcp s) to ≡ (
        record s { state = other_side_finished; seq = u32 (s.seq + 1); ack = u32 (tcp.seq + 1) },
        send to reply,
      )
  unfolding later_stages fin_stage ack_stage payload_stage syn_stage
  packet_fin reply f n e = ground arith

module _ (g : Gopacket) (ipv4 : Ipv4Header) (tcp : TcpHeader) (to : Chan Bytes) where
  -- After a plain SYN with the sequence number `n` for a new connection, the SYN+ACK of Accept
  -- acknowledges n + 2, one more than the SYN takes up.
  pub syn_ack_off_by_one :
      tcp.syn_flag ≡ true
      → tcp.ack_flag ≡ false
      → tcp.fin_flag ≡ false
      → let s = after g ipv4 tcp (found_or_new none ipv4 tcp) to in
        (s.state ≡ syn_received)
        × (s.ack ≡ u32 (tcp.seq + 1))
        × ((accept_header s).ack ≡ u32 (tcp.seq + 2))
  unfolding later_stages fin_stage ack_stage payload_stage syn_stage accept_header new_tcp_stream
  syn_ack_off_by_one hs ha hf = (ground arith, ground arith, ground arith)
