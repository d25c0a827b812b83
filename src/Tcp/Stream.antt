-- ===== src/Tcp/Stream.antt =====
-- Reading from a stream and closing it.
use httptap.Shared.{
  ◌∙◌, ℕ, zero, suc, ◌+◌, ◌≤◌, ◌<◌, ◌≡◌, ◌≢◌, refl, ap, false, List, [], ◌∷◌, length, ok, err,
  error, Chan, send, arith, eof, inl, inr, ◌⊎◌,
}
use httptap.Packet.{Bytes, Gopacket, serialize_tcp}
use httptap.Tcp.{
  TcpState, init, syn_received, connected, other_side_finished, finished, u32, TcpStream, reply_ip,
  ReadOutcome, blocked, returned, read_loop, read, close, send_fin, close_header,
}

-- The packets that are not empty, in their order.
abbrev pub nonempty : List Bytes → List Bytes
nonempty [] = []
nonempty ([] ∷ ps) = nonempty ps
nonempty ((b ∷ bs) ∷ ps) = (b ∷ bs) ∷ nonempty ps

-- Reading again and again, until nothing is queued: what the successful reads return.
abbrev pub read_more : List Bytes → ReadOutcome → List Bytes
read_more rest (returned (ok packet)) = packet ∷ rest
read_more rest (returned (err e)) = rest
read_more rest blocked = []

pub read_all : ℕ → ℕ → TcpStream → List Bytes
read_all zero size s = []
read_all (suc fuel) size s =
    let (s', out) = read size s in
    let rest = read_all fuel size s' in
    elim out [ blocked ↦ [] | returned r ↦ elim r [ ok packet ↦ packet ∷ rest | err e ↦ rest ] ]

abbrev pub AllFit : ℕ → List Bytes → Type 0
AllFit size [] = Unit
AllFit size (p ∷ ps) = (length p ≤ size) × AllFit size ps

unfoldable pub with_items : TcpStream → List Bytes → TcpStream
with_items s items = record s { from_subprocess = record s.from_subprocess { items = items } }

pub read_full :
    (size : ℕ) (s : TcpStream) (b : ℕ) (bs : Bytes) (ps : List Bytes)
    → length (b ∷ bs) ≤ size
    → read size (with_items s ((b ∷ bs) ∷ ps)) ≡ (with_items s ps, returned (ok (b ∷ bs)))
unfolding read with_items
read_full size s b bs ps fit = ground arith

read_all_full :
    (fuel size : ℕ) (s : TcpStream) (b : ℕ) (bs : Bytes) (ps : List Bytes)
    → length (b ∷ bs) ≤ size
    → read_all (suc fuel) size (with_items s ((b ∷ bs) ∷ ps))
      ≡ (b ∷ bs) ∷ read_all fuel size (with_items s ps)
unfolding read_all
read_all_full fuel size s b bs ps fit = ground (arith, read_full size s b bs ps fit)

read_all_items :
    (fuel size : ℕ) (s : TcpStream) (items : List Bytes)
    → length items < fuel
    → AllFit size items
    → s.from_subprocess.closed ≡ false
    → read_all fuel size (with_items s items) ≡ nonempty items
unfolding read_all read with_items
read_all_items zero size s items h fit open' = elim h [ ]
read_all_items (suc fuel) size s [] h fit open' = rw open'
read_all_items (suc fuel) size s ([] ∷ ps) h fit open' =
    read_all_items (suc fuel) size s ps (omega arith) fit.1 open'
read_all_items (suc fuel) size s ((b ∷ bs) ∷ ps) h fit open' =
    read_all_full fuel size s b bs ps fit.0
    ∙ ap (λ r. (b ∷ bs) ∷ r) (read_all_items fuel size s ps (omega arith) fit.1 open')

-- Reading again and again with a buffer that holds every queued packet, on an open channel,
-- returns exactly the queued packets that are not empty, each once and in the order of arrival.
pub read_all-eq-nonempty :
    (size : ℕ) (s : TcpStream)
    → AllFit size s.from_subprocess.items
    → s.from_subprocess.closed ≡ false
    → read_all (suc (length s.from_subprocess.items)) size s ≡ nonempty s.from_subprocess.items
unfolding with_items
read_all-eq-nonempty size s fit open' =
    read_all_items (suc (length s.from_subprocess.items)) size s s.from_subprocess.items
      (omega arith) fit open'

read_loop_never_eof :
    (size : ℕ) (items : List Bytes) → (read_loop size false items).1 ≢ returned (err eof)
unfolding read_loop
read_loop_never_eof size [] e = cc
read_loop_never_eof size (p ∷ ps) e = ground (arith, read_loop_never_eof size ps)

-- On an open channel, Read never reports the end of the stream.
pub read_never_eof :
    (size : ℕ) (s : TcpStream)
    → s.from_subprocess.closed ≡ false
    → (read size s).1 ≢ returned (err eof)
unfolding read
read_never_eof size s open' = rw open' (read_loop_never_eof size s.from_subprocess.items)

module _ (g : Gopacket) (s : TcpStream) (to : Chan Bytes) where
  -- Close fails in the initial state and does nothing in the finished one. In any other state, if
  -- the FIN can be serialised, it is queued unless that would block, the stream is finished, one
  -- sequence number is used up, and a second Close changes nothing and returns nil.
  close_lem :
      (fin : Bytes)
      → serialize_tcp g (reply_ip s) (close_header s) [] ≡ ok fin
      → ((s.state ≡ init)
          × (close g s to ≡ (s, to, err (error "cannot close TCP stream in state StateInit"))))
        ⊎ ((s.state ≡ finished) × (close g s to ≡ (s, to, ok tt)))
        ⊎ (let closed = record s { state = finished; seq = u32 (s.seq + 1) } in
            (close g s to ≡ (closed, send to fin, ok tt))
            × (close g closed (send to fin) ≡ (closed, send to fin, ok tt)))
  unfolding close send_fin
  close_lem fin e = go s.state refl
    where
      go :
          (t : TcpState)
          → s.state ≡ t
          → ((s.state ≡ init)
              × (close g s to ≡ (s, to, err (error "cannot close TCP stream in state StateInit"))))
            ⊎ ((s.state ≡ finished) × (close g s to ≡ (s, to, ok tt)))
            ⊎ (let closed = record s { state = finished; seq = u32 (s.seq + 1) } in
                (close g s to ≡ (closed, send to fin, ok tt))
                × (close g closed (send to fin) ≡ (closed, send to fin, ok tt)))
      go init h = inl (h, ground arith)
      go finished h = inr (inl (h, ground arith))
      go syn_received h = inr (inr (ground arith, refl))
      go connected h = inr (inr (ground arith, refl))
      go other_side_finished h = inr (inr (ground arith, refl))
