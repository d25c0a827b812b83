-- ===== src/Tcp/Isolation.antt =====
-- A packet touches the stream of its own connection only.
use httptap.Shared.{
  ◌≡◌, refl, ap, ◌∙◌, sym, Bool, true, false, some, List, [], ◌∷◌, Text, same, same_iff,
  if◌then◌else◌, arith, Bool-cases, inl, inr,
}
use mathlib.Core.Option.{some-injective}
use httptap.Addr.{AddrPort, srcdst}
use httptap.Addr.Injective.{IsV4, srcdst-injective}
use httptap.Packet.{Ipv4Header, TcpHeader, Gopacket}
use httptap.Mux.{notify_tcp, first_match}
use httptap.Tcp.{TcpStream, local_addr}
use httptap.Tcp.Stack.{
  lookup, insert, TcpStack, key_of, src_of, dst_of, found_or_new, opens, spawn, syn_stage,
  later_stages, notify_stage, handle_packet,
}

pub lookup-insert :
    (k j : Text) (s : TcpStream) (m : List (Text × TcpStream))
    → lookup j (insert k s m) ≡ (if same k j then some s else lookup j m)
unfolding lookup insert
lookup-insert k j s [] = refl
lookup-insert k j s ((i, t) ∷ m) = ground (
  arith,
  (same_iff k j).0,
  (same_iff i k).0,
  (same_iff i j).0,
  (same_iff k j).1,
  (same_iff i k).1,
  (same_iff i j).1,
  lookup-insert k j s m,
)

module _ {H U : Type 0} (st : TcpStack H U) where
  notify_stage_lem :
      (b : Bool) (key : Text) (s : TcpStream)
      → st.app.locked ≡ false
      → notify_stage b key s st
        ≡ some (record st {
          spawned =
              if b
              then spawn (first_match st.app.tcp_handlers (local_addr s)) key st.spawned
              else st.spawned;
        })
  unfolding notify_stage notify_tcp
  notify_stage_lem false key s free = refl
  notify_stage_lem true key s free = ground arith

module _ {H U : Type 0} (g : Gopacket) (ipv4 : Ipv4Header) (tcp : TcpHeader)
    (st : TcpStack H U) where
  abbrev pub stream_before : TcpStream
  stream_before = found_or_new (lookup (key_of ipv4 tcp) st.streams) ipv4 tcp

  -- What a packet does, when the lock of the multiplexer is free: the stream of its key goes
  -- through the stages, and a handler is started if the packet opens the stream and one matches.
  pub handle_packet_lem :
      st.app.locked ≡ false
      → let later = later_stages g ipv4 tcp (syn_stage tcp stream_before) st.to_subprocess in
        handle_packet g ipv4 tcp st
        ≡ some (record st {
          streams = insert (key_of ipv4 tcp) later.0 st.streams;
          to_subprocess = later.1;
          spawned =
              if opens tcp stream_before
              then spawn
                  (first_match st.app.tcp_handlers (local_addr (syn_stage tcp stream_before)))
                  (key_of ipv4 tcp)
                  st.spawned
              else st.spawned;
        })
  unfolding handle_packet
  handle_packet_lem free = rw (
    notify_stage_lem st (opens tcp stream_before) (key_of ipv4 tcp) (syn_stage tcp stream_before)
        free,
    handle_packet,
  )

  pub handle_packet-streams :
      (st' : TcpStack H U)
      → st.app.locked ≡ false
      → handle_packet g ipv4 tcp st ≡ some st'
      → st'.streams
        ≡ insert
            (key_of ipv4 tcp)
            (later_stages g ipv4 tcp (syn_stage tcp stream_before) st.to_subprocess).0
            st.streams
  handle_packet-streams st' free e =
      sym (
        ap (λ (t : TcpStack H U). t.streams)
          (some-injective _ _ (sym (handle_packet_lem free) ∙ e)))

  -- When the lock of the multiplexer is free, a packet of one IPv4 connection leaves the stream of every other connection as it was, or
  -- absent as it was.
  pub handle_packet_isolated :
      (src dst : AddrPort) (st' : TcpStack H U)
      → IsV4 ipv4.src_ip
      → IsV4 ipv4.dst_ip
      → IsV4 src.addr
      → IsV4 dst.addr
      → ¬ ((src ≡ src_of ipv4 tcp) × (dst ≡ dst_of ipv4 tcp))
      → st.app.locked ≡ false
      → handle_packet g ipv4 tcp st ≡ some st'
      → lookup (srcdst src dst) st'.streams ≡ lookup (srcdst src dst) st.streams
  handle_packet_isolated src dst st' h1 h2 h3 h4 other free e =
      let differ : same (key_of ipv4 tcp) (srcdst src dst) ≡ false =
        elim (Bool-cases (same (key_of ipv4 tcp) (srcdst src dst))) [
          | inr no' ↦ no'
          | inl yes' ↦
              let (p, q) =
                srcdst-injective (src_of ipv4 tcp) (dst_of ipv4 tcp) src dst h1 h2 h3 h4
                  ((same_iff _ _).0 yes') in
              absurd (other (sym p, sym q))
        ] in
      rw (handle_packet-streams st' free e) (rw lookup-insert (rw differ))
