-- ===== src/Tcp/Transport.antt =====
-- What the subprocess sends on a connection is what the handler reads.
use mathlib.Core.Path.{subst}
use httptap.Shared.{
  ℕ, suc, ◌+◌, ◌≤◌, ◌<◌, ◌≡◌, refl, ap, sym, ◌∙◌, Bool, false, if◌then◌else◌, Option, none, some,
  List, [], ◌∷◌, ◌++◌, map, append-nil, append_assoc, All, Text, length, length-append, Chan, arith,
  same_refl,
}
use httptap.Packet.{Bytes, Ipv4Header, TcpHeader, Gopacket}
use httptap.Tcp.{connected, TcpStream}
use httptap.Tcp.Stack.{
  TcpStack, lookup, key_of, syn_stage, later_stages, fin_stage, ack_stage, payload_stage,
  handle_packet, found_or_new,
}
use httptap.Tcp.Stream.{nonempty, AllFit, read_all, read_all-eq-nonempty}
use httptap.Tcp.Handshake.{after, packet_delivers}
use httptap.Tcp.Isolation.{lookup-insert, stream_before, handle_packet_lem}
use httptap.Tcp.Connections.{handle_packets}

-- A data segment of the connection with the key, for a reader with a buffer of `size` bytes.
abbrev pub IsSegment : Ipv4Header → Text → ℕ → TcpHeader → Type 0
IsSegment ipv4 key size tcp =
    (key_of ipv4 tcp ≡ key)
    × (tcp.syn_flag ≡ false)
    × (tcp.fin_flag ≡ false)
    × (0 < length tcp.payload)
    × (length tcp.payload ≤ size)

abbrev pub payloads : List TcpHeader → List Bytes
payloads = map (λ (tcp : TcpHeader). tcp.payload)

abbrev pub packets_of : Ipv4Header → List TcpHeader → List (Ipv4Header × TcpHeader)
packets_of ipv4 = map (λ tcp. (ipv4, tcp))

module _ (ipv4 : Ipv4Header) (key : Text) (size : ℕ) where
  -- A connected stream whose channel has room.
  record IsReady (n : ℕ) (s : TcpStream) : Type 0 where
    is_connected : s.state ≡ connected
    is_open : s.from_subprocess.closed ≡ false
    has_room : length s.from_subprocess.items + n ≤ s.from_subprocess.size

  module _ (g : Gopacket) (tcp : TcpHeader) (s : TcpStream) (to : Chan Bytes) (n : ℕ)
      (h : IsReady (suc n) s) (d : IsSegment ipv4 key size tcp) where
    stays_connected : (after g ipv4 tcp s to).state ≡ connected
    unfolding later_stages fin_stage ack_stage payload_stage syn_stage
    stays_connected = ground (arith, h.is_connected, d.1, d.2)

    is_queued :
        (after g ipv4 tcp s to).from_subprocess
        ≡ record s.from_subprocess { items = s.from_subprocess.items ++ tcp.payload ∷ [] }
    is_queued =
        packet_delivers g ipv4 tcp s to ∙ ground (arith, stays_connected, d.1, d.3, h.has_room)

    after-IsReady : IsReady n (after g ipv4 tcp s to)
    after-IsReady = record {
      is_connected = stays_connected;
      is_open = ap (λ (c : Chan Bytes). c.closed) is_queued ∙ h.is_open;
      has_room =
          subst (λ (c : Chan Bytes). length c.items + n ≤ c.size) (sym is_queued)
            (omega (arith, length-append s.from_subprocess.items (tcp.payload ∷ []), h.has_room));
    }

-- The stack after one segment of a stream that it holds.
module _ {H U : Type 0} (g : Gopacket) (ipv4 : Ipv4Header) (tcp : TcpHeader) (st : TcpStack H U)
    (s : TcpStream) (free : st.app.locked ≡ false)
    (found : lookup (key_of ipv4 tcp) st.streams ≡ some s) where
  abbrev next_stream : TcpStream
  next_stream = after g ipv4 tcp s st.to_subprocess

  holds_next :
      (st' : TcpStack H U) × (handle_packet g ipv4 tcp st ≡ some st')
      × (st'.app.locked ≡ false)
      × (lookup (key_of ipv4 tcp) st'.streams ≡ some next_stream)
  holds_next = (
    _,
    handle_packet_lem g ipv4 tcp st free,
    free,
    lookup-insert (key_of ipv4 tcp) (key_of ipv4 tcp) _ st.streams
        ∙ ap
            (λ (b : Bool).
              if b
              then some (after g ipv4 tcp (stream_before g ipv4 tcp st) st.to_subprocess)
              else lookup (key_of ipv4 tcp) st.streams)
            (same_refl (key_of ipv4 tcp))
        ∙ ap (λ o. some (after g ipv4 tcp (found_or_new o ipv4 tcp) st.to_subprocess)) found,
  )

module _ {H U : Type 0} (g : Gopacket) (ipv4 : Ipv4Header) (key : Text) (size : ℕ) where
  -- The streams before and after some segments.
  record Queues (tcps : List TcpHeader) (s : TcpStream) (st' : TcpStack H U) : Type 0 where
    last : TcpStream
    is_found : lookup key st'.streams ≡ some last
    is_open : last.from_subprocess.closed ≡ false
    is_queued : last.from_subprocess.items ≡ s.from_subprocess.items ++ payloads tcps

  segments-Queues :
      (tcps : List TcpHeader) (st : TcpStack H U) (s : TcpStream)
      → st.app.locked ≡ false
      → lookup key st.streams ≡ some s
      → IsReady ipv4 key size (length tcps) s
      → All (IsSegment ipv4 key size) tcps
      → (st' : TcpStack H U) × (handle_packets g (packets_of ipv4 tcps) st ≡ some st')
        × Queues tcps s st'
  segments-Queues [] st s free found h d = (
    st,
    refl,
    record { last = s; is_found = found; is_open = h.is_open; is_queued = sym (append-nil _) },
  )
  segments-Queues (tcp ∷ tcps) st s free found h d =
      let found' = ap (λ k. lookup k st.streams) d.0.0 ∙ found in
      let (st1, e1, free1, found1) = holds_next g ipv4 tcp st s free found' in
      let s1 = after g ipv4 tcp s st.to_subprocess in
      let (st2, e2, q) =
        segments-Queues tcps st1 s1 free1 (ap (λ k. lookup k st1.streams) (sym d.0.0) ∙ found1)
          (after-IsReady ipv4 key size g tcp s st.to_subprocess (length tcps) h d.0) d.1 in
      (
        st2,
        ap
              (λ o. elim o as (λ _. Option (TcpStack H U)) [
                | none ↦ none
                | some x ↦ handle_packets g (packets_of ipv4 tcps) x
              ])
              e1
            ∙ e2,
        record {
          last = q.last;
          is_found = q.is_found;
          is_open = q.is_open;
          is_queued =
              q.is_queued
              ∙ ap (λ (c : Chan Bytes). c.items ++ payloads tcps)
                  (is_queued ipv4 key size g tcp s st.to_subprocess (length tcps) h d.0)
              ∙ append_assoc s.from_subprocess.items (tcp.payload ∷ []) (payloads tcps);
        },
      )

nonempty-append : (a b : List Bytes) → nonempty (a ++ b) ≡ nonempty a ++ nonempty b
nonempty-append [] b = refl
nonempty-append ([] ∷ a) b = nonempty-append a b
nonempty-append ((x ∷ p) ∷ a) b = ap (λ l. (x ∷ p) ∷ l) (nonempty-append a b)

nonempty-cons : (p : Bytes) (l : List Bytes) → 0 < length p → nonempty (p ∷ l) ≡ p ∷ nonempty l
nonempty-cons [] l h = absurd (omega arith)
nonempty-cons (b ∷ p) l h = refl

AllFit-append : (size : ℕ) (a b : List Bytes) → AllFit size a → AllFit size b → AllFit size (a ++ b)
AllFit-append size [] b h k = k
AllFit-append size (p ∷ a) b h k = (h.0, AllFit-append size a b h.1 k)

module _ (ipv4 : Ipv4Header) (key : Text) (size : ℕ) where
  nonempty-payloads :
      (tcps : List TcpHeader)
      → All (IsSegment ipv4 key size) tcps
      → nonempty (payloads tcps) ≡ payloads tcps
  nonempty-payloads [] d = refl
  nonempty-payloads (tcp ∷ tcps) d =
      nonempty-cons tcp.payload (payloads tcps) d.0.3
      ∙ ap (λ l. tcp.payload ∷ l) (nonempty-payloads tcps d.1)

  payloads-AllFit :
      (tcps : List TcpHeader) → All (IsSegment ipv4 key size) tcps → AllFit size (payloads tcps)
  payloads-AllFit [] d = tt
  payloads-AllFit (tcp ∷ tcps) d = (d.0.4, payloads-AllFit tcps d.1)

-- The stream after data segments: its channel is open, and holds what was queued and the payloads,
-- each of which fits the buffer.
pub segments_queued :
    {H U : Type 0} (g : Gopacket) (ipv4 : Ipv4Header) (key : Text) (size : ℕ)
    (tcps : List TcpHeader) (st : TcpStack H U) (s : TcpStream)
    → st.app.locked ≡ false
    → lookup key st.streams ≡ some s
    → s.state ≡ connected
    → s.from_subprocess.closed ≡ false
    → length s.from_subprocess.items + length tcps ≤ s.from_subprocess.size
    → AllFit size s.from_subprocess.items
    → All (IsSegment ipv4 key size) tcps
    → (st' : TcpStack H U) × (handle_packets g (packets_of ipv4 tcps) st ≡ some st')
      × (last : TcpStream) × (lookup key st'.streams ≡ some last)
      × (last.from_subprocess.closed ≡ false)
      × AllFit size last.from_subprocess.items
      × (nonempty last.from_subprocess.items ≡ nonempty s.from_subprocess.items ++ payloads tcps)
segments_queued g ipv4 key size tcps st s free found is_c is_o has_room fit d =
    let (st', e, q) =
      segments-Queues g ipv4 key size tcps st s free found
        (record { is_connected = is_c; is_open = is_o; has_room = has_room }) d in
    let items = s.from_subprocess.items in
    (
      st',
      e,
      q.last,
      q.is_found,
      q.is_open,
      subst (AllFit size) (sym q.is_queued)
          (AllFit-append size items (payloads tcps) fit (payloads-AllFit ipv4 key size tcps d)),
      ap nonempty q.is_queued
          ∙ nonempty-append items (payloads tcps)
          ∙ ap (λ l. nonempty items ++ l) (nonempty-payloads ipv4 key size tcps d),
    )

-- When the lock of the multiplexer is free and a connection is established, its channel to the
-- application has room for the packets to come, and these are data segments with no SYN or FIN whose
-- payloads fit the reader's buffer: the stack handles them all, and reading the stream then returns
-- what was queued before and the payload of each segment, each as often as its segment has arrived
-- and in the order of arrival, whatever the sequence numbers say.
pub segments_arrive :
    {H U : Type 0} (g : Gopacket) (ipv4 : Ipv4Header) (key : Text) (size : ℕ)
    (tcps : List TcpHeader) (st : TcpStack H U) (s : TcpStream)
    → st.app.locked ≡ false
    → lookup key st.streams ≡ some s
    → s.state ≡ connected
    → s.from_subprocess.closed ≡ false
    → length s.from_subprocess.items + length tcps ≤ s.from_subprocess.size
    → AllFit size s.from_subprocess.items
    → All (IsSegment ipv4 key size) tcps
    → (st' : TcpStack H U) × (handle_packets g (packets_of ipv4 tcps) st ≡ some st')
      × (last : TcpStream) × (lookup key st'.streams ≡ some last)
      × (read_all (suc (length last.from_subprocess.items)) size last
          ≡ nonempty s.from_subprocess.items ++ payloads tcps)
segments_arrive g ipv4 key size tcps st s free found is_c is_o has_room fit d =
    let (st', e, last, is_found, is_open, all_fit, queued) =
      segments_queued g ipv4 key size tcps st s free found is_c is_o has_room fit d in
    (st', e, last, is_found, read_all-eq-nonempty size last all_fit is_open ∙ queued)
