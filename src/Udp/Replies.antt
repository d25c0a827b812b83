-- ===== src/Udp/Replies.antt =====
-- Where datagrams and their replies go.
use httptap.Shared.{
  ◌≡◌, refl, true, false, some, [], ◌∷◌, ◌++◌, ◌⊎◌, inl, inr, length, Error, error, wrap, Result,
  ok, err, Chan, room, arith, Bool-cases,
}
use httptap.Addr.{AddrPort}
use httptap.Packet.{Bytes, Ipv4Header, UdpHeader, Gopacket, serialize_udp}
use httptap.Mux.{first_match, notify_udp}
use httptap.Udp.{Responder, UdpStack, responder_for, packet_for, start, handle_packet, write}

-- With the lock of the multiplexer free, a datagram starts the first handler whose pattern matches its destination, if there is one, and
-- no other. The handler gets the payload unchanged, with a responder whose datagrams have the
-- addresses and ports of this one exchanged. Nothing is written to the subprocess.
pub udp_packet_dispatched :
    {H U : Type 0} (ipv4 : Ipv4Header) (udp : UdpHeader) (payload : Bytes) (st : UdpStack H U)
    → st.app.locked ≡ false
    → let dst : AddrPort = record { addr = ipv4.dst_ip; port = udp.dst_port } in
      let r = responder_for ipv4 udp in
      let p = packet_for ipv4 udp payload in
      (handle_packet ipv4 udp payload st
        ≡ some (record st { started = start (first_match st.app.udp_handlers dst) r p st.started }))
      × (p.payload ≡ payload)
      × (r.ipv4_header.src_ip ≡ p.dst.addr)
      × (r.ipv4_header.dst_ip ≡ p.src.addr)
      × (r.udp_header.src_port ≡ p.dst.port)
      × (r.udp_header.dst_port ≡ p.src.port)
unfolding handle_packet notify_udp
udp_packet_dispatched ipv4 udp payload st free = (ground arith, refl, refl, refl, refl, refl)

-- A call of Write returns the length of the payload exactly if it has queued one datagram for the
-- subprocess; otherwise it returns an error and the channel is as before. In neither case does it
-- wait.
write_reports :
    (g : Gopacket) (payload : Bytes) (r : Responder) (to : Chan Bytes)
    → ((packet : Bytes) × (serialize_udp g r.ipv4_header r.udp_header payload ≡ ok packet)
        × (room to ≡ true)
        × (write g payload r to
            ≡ (record to { items = to.items ++ packet ∷ [] }, ok (length payload))))
      ⊎ ((e : Error) × (write g payload r to ≡ (to, err e)))
unfolding write
write_reports g payload r to =
    go (serialize_udp g r.ipv4_header r.udp_header payload) refl (Bool-cases (room to))
  where
    go :
        (x : Result Bytes)
        → serialize_udp g r.ipv4_header r.udp_header payload ≡ x
        → (room to ≡ true) ⊎ (room to ≡ false)
        → ((packet : Bytes) × (serialize_udp g r.ipv4_header r.udp_header payload ≡ ok packet)
            × (room to ≡ true)
            × (write g payload r to
                ≡ (record to { items = to.items ++ packet ∷ [] }, ok (length payload))))
          ⊎ ((e : Error) × (write g payload r to ≡ (to, err e)))
    go (err e) h b = inr (wrap "error serializing UDP packet" e, ground arith)
    go (ok packet) h (inl b) = inl (packet, h, b, ground arith)
    go (ok packet) h (inr b) =
        inr (error "channel for sending udp to subprocess would have blocked", ground arith)
