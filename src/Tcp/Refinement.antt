-- ===== src/Tcp/Refinement.antt =====
-- tcpStack implements its specification.
use httptap.Shared.{
  ◌≡◌, refl, ap, ◌∙◌, Bool, true, false, ◌&&◌, if◌then◌else◌, Option, none, some, List, [], ◌∷◌,
  All, Text, Chan, map,
}
use httptap.Addr.{AddrPort, srcdst}
use httptap.Addr.Injective.{IsV4}
use httptap.Packet.{Bytes, Ipv4Header, TcpHeader, Gopacket}
use httptap.Mux.{Mux, RequestHandler, first_match}
use httptap.Tcp.{TcpStream, local_addr}
use httptap.Tcp.Stack.{
  lookup, insert, TcpStack, new_tcp_stack, src_of, dst_of, key_of, found_or_new, opens, spawn,
  syn_stage, later_stages, handle_packet,
}
use httptap.Tcp.Isolation.{lookup-insert, handle_packet_lem}
use httptap.Tcp.Connections.{
  same_end, Connections, no_connections, start, on_packet, on_packets, handle_packets, same_key,
  keyed, spawn-start,
}

-- The stack holds the streams of the table, under their keys, and has started the same handlers.
record Refines {H U : Type 0} (app : Mux H U) (st : TcpStack H U) (a : Connections H) : Type 0 where
  same_app : st.app ≡ app
  same_table :
      (src dst : AddrPort)
      → IsV4 src.addr
      → IsV4 dst.addr
      → lookup (srcdst src dst) st.streams ≡ a.table src dst
  same_link : st.to_subprocess ≡ a.link
  same_started : st.spawned ≡ map keyed a.started

abbrev pub BothV4 : Ipv4Header × TcpHeader → Type 0
BothV4 (ipv4, tcp) = IsV4 ipv4.src_ip × IsV4 ipv4.dst_ip

module _ {H U : Type 0} (g : Gopacket) (app : Mux H U) (free : app.locked ≡ false) where
  module _ (ipv4 : Ipv4Header) (tcp : TcpHeader) where
    abbrev before : Option TcpStream → TcpStream
    before o = found_or_new o ipv4 tcp

    abbrev later : Option TcpStream → Chan Bytes → TcpStream × Chan Bytes
    later o link = later_stages g ipv4 tcp (syn_stage tcp (before o)) link

    abbrev spawns :
        Option TcpStream → Mux H U → List (RequestHandler H × Text) → List (RequestHandler H × Text)
    spawns o app l =
        if opens tcp (before o)
        then spawn (first_match app.tcp_handlers (local_addr (syn_stage tcp (before o))))
            (key_of ipv4 tcp) l
        else l

    if_map :
        (b : Bool) (o : Option (RequestHandler H))
        (l : List (RequestHandler H × AddrPort × AddrPort))
        → (if b then spawn o (key_of ipv4 tcp) (map keyed l) else map keyed l)
          ≡ map keyed (if b then start o (src_of ipv4 tcp) (dst_of ipv4 tcp) l else l)
    if_map true o l = spawn-start o (src_of ipv4 tcp) (dst_of ipv4 tcp) l
    if_map false o l = refl

    module _ (st : TcpStack H U) (a : Connections H) (h : Refines app st a)
        (v4s : BothV4 (ipv4, tcp)) where
      abbrev in_table : Option TcpStream
      in_table = a.table (src_of ipv4 tcp) (dst_of ipv4 tcp)

      same_before :
          lookup (key_of ipv4 tcp) st.streams ≡ a.table (src_of ipv4 tcp) (dst_of ipv4 tcp)
      same_before = h.same_table (src_of ipv4 tcp) (dst_of ipv4 tcp) v4s.0 v4s.1

      same_later :
          later (lookup (key_of ipv4 tcp) st.streams) st.to_subprocess
          ≡ later (a.table (src_of ipv4 tcp) (dst_of ipv4 tcp)) a.link
      same_later = ap (λ o. later o st.to_subprocess) same_before ∙ ap (later in_table) h.same_link

      table_after :
          (src dst : AddrPort)
          → IsV4 src.addr
          → IsV4 dst.addr
          → lookup (srcdst src dst) (
              insert
                (key_of ipv4 tcp)
                (later (lookup (key_of ipv4 tcp) st.streams) st.to_subprocess).0
                st.streams)
            ≡ (on_packet g app (ipv4, tcp) a).table src dst
      table_after src dst h1 h2 =
          lookup-insert (key_of ipv4 tcp) (srcdst src dst) _ st.streams
          ∙ ap
              (λ b.
                if b
                then some (later (lookup (key_of ipv4 tcp) st.streams) st.to_subprocess).0
                else lookup (srcdst src dst) st.streams)
              (same_key (src_of ipv4 tcp) (dst_of ipv4 tcp) src dst v4s.0 v4s.1 h1 h2)
          ∙ ap
              (λ (x : TcpStream × Chan Bytes).
                if same_end (src_of ipv4 tcp) src && same_end (dst_of ipv4 tcp) dst
                then some x.0
                else lookup (srcdst src dst) st.streams)
              same_later
          ∙ ap
              (λ o.
                if same_end (src_of ipv4 tcp) src && same_end (dst_of ipv4 tcp) dst
                then some (later (a.table (src_of ipv4 tcp) (dst_of ipv4 tcp)) a.link).0
                else o)
              (h.same_table src dst h1 h2)

      started_after :
          spawns (lookup (key_of ipv4 tcp) st.streams) st.app st.spawned
          ≡ map keyed (on_packet g app (ipv4, tcp) a).started
      started_after =
          ap (λ o. spawns o st.app st.spawned) same_before
          ∙ ap (λ m. spawns in_table m st.spawned) h.same_app
          ∙ ap (spawns in_table app) h.same_started
          ∙ if_map (opens tcp (before (a.table (src_of ipv4 tcp) (dst_of ipv4 tcp)))) _ a.started

      step-Refines :
          (st' : TcpStack H U) × (handle_packet g ipv4 tcp st ≡ some st')
          × Refines app st' (on_packet g app (ipv4, tcp) a)
      step-Refines = (
        _,
        handle_packet_lem g ipv4 tcp st (ap (λ (m : Mux H U). m.locked) h.same_app ∙ free),
        record {
          same_app = h.same_app;
          same_table = table_after;
          same_link = ap (λ (x : TcpStream × Chan Bytes). x.1) same_later;
          same_started = started_after;
        },
      )

  run-Refines :
      (ps : List (Ipv4Header × TcpHeader)) (st : TcpStack H U) (a : Connections H)
      → All BothV4 ps
      → Refines app st a
      → (st' : TcpStack H U) × (handle_packets g ps st ≡ some st')
        × Refines app st' (on_packets g app ps a)
  run-Refines [] st a v h = (st, refl, h)
  run-Refines ((ipv4, tcp) ∷ ps) st a v h =
      let (st1, e, h1) = step-Refines ipv4 tcp st a h v.0 in
      let (st2, e2, h2) = run-Refines ps st1 _ v.1 h1 in
      (
        st2,
        ap
              (λ o. elim o as (λ _. Option (TcpStack H U)) [
                | none ↦ none
                | some x ↦ handle_packets g ps x
              ])
              e
            ∙ e2,
        h2,
      )

  -- When the lock of the multiplexer is free, tcpStack implements its specification on every
  -- sequence of IPv4 packets: it handles them all, and then holds for any two IPv4 end points the
  -- stream that the table holds for them, or none where the table has none, has queued the same
  -- packets for the subprocess, and has started the same handlers in the same order, each for the
  -- key of its two end points.
  pub handle_packets_refine :
      (ps : List (Ipv4Header × TcpHeader)) (link : Chan Bytes) (src dst : AddrPort)
      → All BothV4 ps
      → IsV4 src.addr
      → IsV4 dst.addr
      → let a = on_packets g app ps (no_connections link) in
        (st' : TcpStack H U) × (handle_packets g ps (new_tcp_stack app link) ≡ some st')
        × (lookup (srcdst src dst) st'.streams ≡ a.table src dst)
        × (st'.to_subprocess ≡ a.link)
        × (st'.spawned ≡ map keyed a.started)
  unfolding new_tcp_stack lookup
  handle_packets_refine ps link src dst v h1 h2 =
      let start_Refines : Refines app (new_tcp_stack app link) (no_connections link) = record {
        same_app = refl;
        same_table = λ src dst h1 h2. refl;
        same_link = refl;
        same_started = refl;
      } in
      let (st', e, r) = run-Refines ps _ _ v start_Refines in
      (st', e, r.same_table src dst h1 h2, r.same_link, r.same_started)
