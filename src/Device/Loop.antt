-- ===== src/Device/Loop.antt =====
-- The loop of readFromDevice takes every packet.
use mathlib.Core.Path.{subst}
use httptap.Mux.{Mux}
use httptap.Shared.{
  ◌≡◌, refl, sym, ap, ◌∙◌, false, Option, none, some, List, [], ◌∷◌, IsBounded, Result, ok, err,
}
use httptap.Packet.{Ipv4Header, TcpHeader, UdpHeader, Gopacket}
use httptap.Tcp.Stack.{syn_stage}
use httptap.Tcp.Isolation.{handle_packet_lem, stream_before}
use httptap.Tcp.Life.Keeps.{stages-IsBounded}
use httptap.Udp.Replies.{udp_packet_dispatched}
use httptap.Device.{Layers, Device, with_tcp, with_udp, to_tcp, to_udp, deliver, read_from_device}

-- The lock of the shared multiplexer is free, the shared channel is within its size, and the two
-- stacks share both.
pub record IsReady {H U : Type 0} (d : Device H U) : Type 0 where
  pub free : d.tcp_stack.app.locked ≡ false
  pub bounded : IsBounded d.tcp_stack.to_subprocess
  pub same_app : d.udp_stack.app ≡ d.tcp_stack.app
  pub same_link : d.udp_stack.to_subprocess ≡ d.tcp_stack.to_subprocess

module _ {H U : Type 0} (g : Gopacket) where
  to_tcp-IsReady :
      (ipv4 : Ipv4Header) (tcp : Option TcpHeader) (d : Device H U)
      → IsReady d
      → (d' : Device H U) × (to_tcp g ipv4 tcp d ≡ some d') × IsReady d'
  unfolding to_tcp
  to_tcp-IsReady ipv4 none d r = (d, refl, r)
  to_tcp-IsReady ipv4 (some tcp) d r =
      let e = handle_packet_lem g ipv4 tcp d.tcp_stack r.free in
      (
        _,
        ap (λ x. elim x [ none ↦ none | some t ↦ some (with_tcp g d t) ]) e,
        record {
          free = r.free;
          bounded =
              stages-IsBounded g ipv4 tcp (syn_stage tcp (stream_before g ipv4 tcp d.tcp_stack))
                d.tcp_stack.to_subprocess r.bounded;
          same_app = refl;
          same_link = refl;
        },
      )

  to_udp-IsReady :
      (ipv4 : Ipv4Header) (udp : Option UdpHeader) (d : Device H U)
      → IsReady d
      → (d' : Device H U) × (to_udp g ipv4 udp d ≡ some d')
        × IsReady d'
        × (d'.tcp_stack.streams ≡ d.tcp_stack.streams)
  unfolding to_udp
  to_udp-IsReady ipv4 none d r = (d, refl, r, refl)
  to_udp-IsReady ipv4 (some udp) d r =
      let free : d.udp_stack.app.locked ≡ false =
        ap (λ (m : Mux H U). m.locked) r.same_app ∙ r.free in
      let e = (udp_packet_dispatched ipv4 udp udp.payload d.udp_stack free).0 in
      (
        _,
        ap (λ x. elim x [ none ↦ none | some u ↦ some (with_udp g d u) ]) e,
        record {
          free = free;
          bounded = subst IsBounded (sym r.same_link) r.bounded;
          same_app = refl;
          same_link = refl;
        },
        refl,
      )

  deliver-IsReady :
      (ipv4 : Option Ipv4Header) (l : Layers) (d : Device H U)
      → IsReady d
      → (d' : Device H U) × (deliver g ipv4 l d ≡ some d') × IsReady d'
  unfolding deliver
  deliver-IsReady none l d r = (d, refl, r)
  deliver-IsReady (some ipv4) l d r =
      let (d1, e1, r1) = to_tcp-IsReady ipv4 l.tcp d r in
      let (d2, e2, r2, _) = to_udp-IsReady ipv4 l.udp d1 r1 in
      (d2, ap (λ x. elim x [ none ↦ none | some d' ↦ to_udp g ipv4 l.udp d' ]) e1 ∙ e2, r2)

  -- If the lock of the multiplexer is free, the channel to the subprocess is within its size, and the
  -- two stacks share both, then the loop gets past whatever is read from the device, packets of any
  -- kind and errors, in any order: no packet makes it wait. Afterwards the same three things hold.
  pub read_from_device_goes_on :
      (reads : List (Result Layers)) (d : Device H U)
      → IsReady d
      → (d' : Device H U) × (read_from_device g reads d ≡ some d') × IsReady d'
  unfolding read_from_device
  read_from_device_goes_on [] d r = (d, refl, r)
  read_from_device_goes_on (err e ∷ reads) d r = read_from_device_goes_on reads d r
  read_from_device_goes_on (ok l ∷ reads) d r =
      let (d1, e1, r1) = deliver-IsReady l.ipv4 l d r in
      let (d2, e2, r2) = read_from_device_goes_on reads d1 r1 in
      (d2, ap (λ x. elim x [ none ↦ none | some d' ↦ read_from_device g reads d' ]) e1 ∙ e2, r2)
