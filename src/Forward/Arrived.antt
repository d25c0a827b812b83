-- ===== src/Forward/Arrived.antt =====
-- The stream of the subprocess and the copying loop of proxy.go together: what the subprocess sends
-- on a connection is written to the world.
use httptap.Shared.{
  ℕ, zero, suc, none, ok, err, ◌<◌, arith, ◌+◌, ◌≤◌, ◌≡◌, refl, ap, ◌∙◌, false, Option, some, List,
  [], ◌∷◌, ◌++◌, All, Text, length, Error,
}
use httptap.Packet.{Bytes, Gopacket, Ipv4Header, TcpHeader}
use httptap.Tcp.{TcpStream, connected, read, blocked, returned}
use httptap.Tcp.Stack.{TcpStack, lookup}
use httptap.Tcp.Stream.{nonempty, AllFit, with_items, read_full}
use httptap.Tcp.Connections.{handle_packets}
use httptap.Tcp.Transport.{IsSegment, packets_of, payloads, segments_queued}
use httptap.Forward.{Copy, CopyEnd, still_reading, proxy_bytes}
use httptap.Http.Bodies.{Io}
use httptap.Forward.Copied.{good_reads, chunks}

copied_so_far :
    (writer : ℕ → Bytes → Option Error) (k : ℕ) (cs : List Bytes)
    → (chunks (proxy_bytes writer k (good_reads cs)).0 ≡ cs)
      × ((proxy_bytes writer k (good_reads cs)).1 ≡ still_reading)
unfolding proxy_bytes
copied_so_far writer k [] = (refl, refl)
copied_so_far writer k (c ∷ cs) =
    let ih = copied_so_far writer (suc k) cs in (ap (λ l. c ∷ l) ih.0, ih.1)

-- The size of the buffer of proxyBytes.
abbrev pub buffer_size : ℕ
buffer_size = 1048576

-- What the next Reads from a stream return, the errors included, up to the one that waits, and the
-- stream then.
unfoldable pub reads_until_wait : ℕ → ℕ → TcpStream → List Io × TcpStream
reads_until_wait zero size s = ([], s)
reads_until_wait (suc fuel) size s =
    let (s', out) = read size s in
    let (later, last) = reads_until_wait fuel size s' in
    elim out [
      | blocked ↦ ([], s')
      | returned r ↦ elim r [
        | ok packet ↦ ((packet, none) ∷ later, last)
        | err e ↦ (([], some e) ∷ later, last)
      ]
    ]

one_read :
    (fuel size : ℕ) (s : TcpStream) (b : ℕ) (bs : Bytes) (ps : List Bytes)
    → length (b ∷ bs) ≤ size
    → reads_until_wait (suc fuel) size (with_items s ((b ∷ bs) ∷ ps)) ≡ (
        let (later, last) = reads_until_wait fuel size (with_items s ps) in
        ((b ∷ bs, none) ∷ later, last))
unfolding reads_until_wait
one_read fuel size s b bs ps fit = ground (arith, read_full size s b bs ps fit)

all_reads :
    (fuel size : ℕ) (s : TcpStream) (items : List Bytes)
    → length items < fuel
    → AllFit size items
    → s.from_subprocess.closed ≡ false
    → reads_until_wait fuel size (with_items s items)
      ≡ (good_reads (nonempty items), with_items s [])
unfolding reads_until_wait read with_items
all_reads zero size s items h fit open' = elim h [ ]
all_reads (suc fuel) size s [] h fit open' = rw open'
all_reads (suc fuel) size s ([] ∷ ps) h fit open' =
    all_reads (suc fuel) size s ps (omega arith) fit.1 open'
all_reads (suc fuel) size s ((b ∷ bs) ∷ ps) h fit open' =
    one_read fuel size s b bs ps fit.0
    ∙ ap (λ (x : List Io × TcpStream). ((b ∷ bs, none) ∷ x.0, x.1))
        (all_reads fuel size s ps (omega arith) fit.1 open')

waits_then :
    (size : ℕ) (s : TcpStream)
    → s.from_subprocess.closed ≡ false
    → (read size (with_items s [])).1 ≡ blocked
unfolding read with_items
waits_then size s open' = rw open'

-- The copying loop from a stream: with one Read for each queued packet and one that waits.
abbrev pub forwarded :
    (ℕ → Bytes → Option Error) → TcpStream → List (Bytes × Option Error) × CopyEnd
forwarded writer s =
    proxy_bytes writer 0 (reads_until_wait (suc (length s.from_subprocess.items)) buffer_size s).0

-- Under the conditions of a connection that is established, has room for the packets to come, and
-- gets data segments of at most 1 MiB: when the stack has handled the packets, the copying loop of
-- proxy.go writes to the world what was queued for the connection and then the payload of each
-- segment, in order, whatever the writes return, and then stays in a Read, which waits for more.
pub segments_forwarded :
    {H U : Type 0} (g : Gopacket) (ipv4 : Ipv4Header) (key : Text) (tcps : List TcpHeader)
    (st : TcpStack H U) (s : TcpStream) (writer : ℕ → Bytes → Option Error)
    → st.app.locked ≡ false
    → lookup key st.streams ≡ some s
    → s.state ≡ connected
    → s.from_subprocess.closed ≡ false
    → length s.from_subprocess.items + length tcps ≤ s.from_subprocess.size
    → AllFit buffer_size s.from_subprocess.items
    → All (IsSegment ipv4 key buffer_size) tcps
    → (st' : TcpStack H U) × (last : TcpStream) × (handle_packets g (packets_of ipv4 tcps) st
        ≡ some st')
      × (lookup key st'.streams ≡ some last)
      × (chunks (forwarded writer last).0 ≡ nonempty s.from_subprocess.items ++ payloads tcps)
      × ((forwarded writer last).1 ≡ still_reading)
      × ((read buffer_size
            (reads_until_wait (suc (length last.from_subprocess.items)) buffer_size last).1).1
          ≡ blocked)
unfolding with_items
segments_forwarded g ipv4 key tcps st s writer free found is_c is_o has_room fit d =
    let (st', e, last, is_found, is_open, all_fit, queued) =
      segments_queued g ipv4 key buffer_size tcps st s free found is_c is_o has_room fit d in
    let n = suc (length last.from_subprocess.items) in
    let reads : reads_until_wait n buffer_size last
        ≡ (good_reads (nonempty last.from_subprocess.items), with_items last []) =
      all_reads n buffer_size last last.from_subprocess.items (omega arith) all_fit is_open in
    let (written, waits) = copied_so_far writer 0 (nonempty last.from_subprocess.items) in
    let first = ap (λ (x : List Io × TcpStream). proxy_bytes writer 0 x.0) reads in
    (
      st',
      last,
      e,
      is_found,
      ap (λ (c : Copy). chunks c.0) first ∙ written ∙ queued,
      ap (λ (c : Copy). c.1) first ∙ waits,
      ap (λ (x : List Io × TcpStream). (read buffer_size x.1).1) reads
          ∙ waits_then buffer_size last is_open,
    )
