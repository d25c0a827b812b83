-- ===== src/Tcp/Connections.antt =====
-- The specification of tcpStack: a table of streams indexed by the two end points of a connection,
-- where the code has a map that is keyed by a text.
use httptap.Shared.{
  ◌≡◌, refl, ap, sym, ◌∙◌, Bool, true, false, ◌&&◌, ◌==◌, if◌then◌else◌, Option, none, some, List,
  [], ◌∷◌, ◌++◌, Text, same, same_iff, same_refl, Chan, arith, map, Bool-cases, ◌⊎◌, inl, inr,
}
use mathlib.Core.List.{map-append}
use httptap.Addr.{Ip, v4, v6, AddrPort, srcdst}
use httptap.Addr.Injective.{IsV4, srcdst-injective}
use httptap.Packet.{Bytes, Ipv4Header, TcpHeader, Gopacket}
use httptap.Mux.{Mux, RequestHandler, first_match}
use httptap.Tcp.{TcpStream, local_addr}
use httptap.Tcp.Stack.{
  TcpStack, src_of, dst_of, found_or_new, opens, spawn, syn_stage, later_stages, handle_packet,
}

abbrev same_ip : Ip → Ip → Bool
same_ip (v4 a b c d) (v4 a' b' c' d') = (a == a' && b == b') && (c == c' && d == d')
same_ip (v6 t) (v6 t') = same t t'
same_ip _ _ = false

abbrev pub same_end : AddrPort → AddrPort → Bool
same_end x y = same_ip x.addr y.addr && x.port == y.port

-- The specification.
abbrev pub Table : Type 0
Table = AddrPort → AddrPort → Option TcpStream

abbrev pub put : AddrPort → AddrPort → TcpStream → Table → Table
put src dst s t src' dst' = if same_end src src' && same_end dst dst' then some s else t src' dst'

pub record Connections (H : Type 0) : Type 0 where
  pub table : Table
  pub link : Chan Bytes
  pub started : List (RequestHandler H × AddrPort × AddrPort)

abbrev pub no_connections : {H : Type 0} → Chan Bytes → Connections H
no_connections link = record { table = λ src dst. none; link = link; started = [] }

abbrev pub start :
    {H : Type 0}
    → Option (RequestHandler H)
    → AddrPort
    → AddrPort
    → List (RequestHandler H × AddrPort × AddrPort)
    → List (RequestHandler H × AddrPort × AddrPort)
start none src dst l = l
start (some h) src dst l = l ++ (h, src, dst) ∷ []

module _ {H U : Type 0} (g : Gopacket) where
  -- A packet takes the stream of its own two end points through the stages, and starts the handler
  -- that the multiplexer finds if it opens that stream.
  abbrev pub on_packet : Mux H U → Ipv4Header × TcpHeader → Connections H → Connections H
  on_packet app (ipv4, tcp) a =
      let src = src_of ipv4 tcp in
      let dst = dst_of ipv4 tcp in
      let before = found_or_new (a.table src dst) ipv4 tcp in
      let later = later_stages g ipv4 tcp (syn_stage tcp before) a.link in
      record {
        table = put src dst later.0 a.table;
        link = later.1;
        started =
            if opens tcp before
            then start (first_match app.tcp_handlers (local_addr (syn_stage tcp before))) src dst
                a.started
            else a.started;
      }

  abbrev pub on_packets : Mux H U → List (Ipv4Header × TcpHeader) → Connections H → Connections H
  on_packets app [] a = a
  on_packets app (p ∷ ps) a = on_packets app ps (on_packet app p a)

  -- The code on a sequence of packets.
  abbrev pub handle_packets : List (Ipv4Header × TcpHeader) → TcpStack H U → Option (TcpStack H U)
  handle_packets [] st = some st
  handle_packets ((ipv4, tcp) ∷ ps) st = elim (handle_packet g ipv4 tcp st) [
    | none ↦ none
    | some st' ↦ handle_packets ps st'
  ]

same_ip→eq : (i j : Ip) → same_ip i j ≡ true → i ≡ j
same_ip→eq (v4 a b c d) (v4 a' b' c' d') h = grind arith
same_ip→eq (v4 a b c d) (v6 t) h = absurd (cc)
same_ip→eq (v6 t) (v4 a b c d) h = absurd (cc)
same_ip→eq (v6 t) (v6 t') h = ap v6 ((same_iff t t').0 h)

same_ip_refl : (i : Ip) → same_ip i i ≡ true
same_ip_refl (v4 a b c d) = grind arith
same_ip_refl (v6 t) = same_refl t

same_end→eq : (x y : AddrPort) → same_end x y ≡ true → x ≡ y
same_end→eq x y h =
    let p : same_ip x.addr y.addr ≡ true = ground arith in
    let q : x.port ≡ y.port = ground arith in
    ap (λ a. record { addr = a; port = x.port }) (same_ip→eq x.addr y.addr p)
    ∙ ap (λ n. record { addr = y.addr; port = n }) q

same_end_refl : (x : AddrPort) → same_end x x ≡ true
same_end_refl x = ground (arith, same_ip_refl x.addr)

-- The key tells connections apart as their end points do.
pub same_key :
    (src dst src' dst' : AddrPort)
    → IsV4 src.addr
    → IsV4 dst.addr
    → IsV4 src'.addr
    → IsV4 dst'.addr
    → same (srcdst src dst) (srcdst src' dst') ≡ (same_end src src' && same_end dst dst')
same_key src dst src' dst' h1 h2 h3 h4 =
    elim (Bool-cases (same (srcdst src dst) (srcdst src' dst'))) [
      | inl yes' ↦
          let (p, q) = srcdst-injective src dst src' dst' h1 h2 h3 h4 ((same_iff _ _).0 yes') in
          yes'
          ∙ sym (
              ap (λ x. same_end src x && same_end dst dst') (sym p)
              ∙ ap (λ x. same_end src src && same_end dst x) (sym q)
              ∙ both (same_end_refl src) (same_end_refl dst))
      | inr no' ↦ no' ∙ sym (differ (Bool-cases _) no')
    ]
  where
    both : {a b : Bool} → a ≡ true → b ≡ true → (a && b) ≡ true
    both h k = ground arith

    differ :
        ((same_end src src' && same_end dst dst') ≡ true)
          ⊎ ((same_end src src' && same_end dst dst') ≡ false)
        → same (srcdst src dst) (srcdst src' dst') ≡ false
        → (same_end src src' && same_end dst dst') ≡ false
    differ (inr e) no' = e
    differ (inl e) no' =
        let p : same_end src src' ≡ true = ground arith in
        let q : same_end dst dst' ≡ true = ground arith in
        let eq : same (srcdst src dst) (srcdst src' dst') ≡ true =
          ap (λ x. same (srcdst src dst) (srcdst x dst')) (sym (same_end→eq src src' p))
          ∙ ap (λ x. same (srcdst src dst) (srcdst src x)) (sym (same_end→eq dst dst' q))
          ∙ same_refl (srcdst src dst) in
        absurd (cc)

-- A started handler with the key of its stream.
abbrev pub keyed : {H : Type 0} → RequestHandler H × AddrPort × AddrPort → RequestHandler H × Text
keyed (h, src, dst) = (h, srcdst src dst)

pub spawn-start :
    {H : Type 0} (o : Option (RequestHandler H)) (src dst : AddrPort)
    (l : List (RequestHandler H × AddrPort × AddrPort))
    → spawn o (srcdst src dst) (map keyed l) ≡ map keyed (start o src dst l)
spawn-start none src dst l = refl
spawn-start (some h) src dst l = sym (map-append keyed l ((h, src, dst) ∷ []))
