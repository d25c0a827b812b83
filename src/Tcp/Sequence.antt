-- ===== src/Tcp/Sequence.antt =====
-- The sequence numbers that tcpStream puts into the segments it sends.
use httptap.Shared.{
  ℕ, ◌+◌, ◌<◌, ◌≡◌, refl, ap, false, none, List, [], ◌∷◌, length, Result, ok, err, Chan, room,
  arith, Option-cases, inl, inr, error,
}
use httptap.Packet.{Bytes, Gopacket, serialize_tcp}
use httptap.Tcp.{
  u32, sub_u32, TcpStream, advance, accept, accept_header, write, write_header, close_header, emit,
  emit_write, reply_ip,
}

-- What the segments' payloads take up in the sequence space.
abbrev pub total : List Bytes → ℕ
total [] = 0
total (p ∷ ps) = length p + total ps

abbrev pub IsU32 : ℕ → Type 0
IsU32 n = n < 4294967296

sub_u32_cancel : (n d : ℕ) → IsU32 n → IsU32 d → sub_u32 (u32 (n + d)) d ≡ n
sub_u32_cancel n d hn hd = omega arith

emit-stream : (s : TcpStream) (to : Chan Bytes) (r : Result Bytes) → (emit s to r).0 ≡ s
emit-stream s to (ok p) = refl
emit-stream s to (err e) = refl

emit_write-stream :
    (s : TcpStream) (to : Chan Bytes) (n : ℕ) (r : Result Bytes) → (emit_write s to n r).0 ≡ s
emit_write-stream s to n (err e) = refl
emit_write-stream s to n (ok p) = ground arith

module _ (g : Gopacket) where
  accept-stream : (s : TcpStream) (to : Chan Bytes) → (accept g s to).0 ≡ advance 1 s
  unfolding accept
  accept-stream s to = emit-stream _ to _

  pub write-stream :
      (p : Bytes) (s : TcpStream) (to : Chan Bytes)
      → (write g p s to).0 ≡ advance (u32 (length p)) s
  unfolding write
  write-stream p s to = elim (Option-cases (g.network_layer (reply_ip s))) [
    | inl e ↦ rw (e, write) (emit_write-stream _ to _ _)
    | inr (x, e) ↦ rw (e, write) refl
  ]

  -- One call of Write after another.
  pub write_all : List Bytes → TcpStream → Chan Bytes → TcpStream × Chan Bytes
  write_all [] s to = (s, to)
  write_all (p ∷ ps) s to = let (s', to', _) = write g p s to in write_all ps s' to'

  write_all-seq :
      (ps : List Bytes) (s : TcpStream) (to : Chan Bytes)
      → IsU32 s.seq
      → (write_all ps s to).0.seq ≡ u32 (s.seq + total ps)
  unfolding write_all
  write_all-seq [] s to h = omega arith
  write_all-seq (p ∷ ps) s to h =
      let step = ap (λ (t : TcpStream). t.seq) (write-stream p s to) in
      omega
        (arith, step, write_all-seq ps (write g p s to).0 (write g p s to).1 (omega (arith, step)))

  -- After Accept and any writes, successful or not, the next segment continues the sequence space:
  -- the SYN carries the sequence number that the stream had, and the segment of the next Write, or
  -- the FIN of Close, carries that number, a 32-bit one, plus one for the SYN plus the bytes of all payloads
  -- written so far, modulo 2^32.
  pub sequence_continues :
      (s : TcpStream) (to : Chan Bytes) (ps : List Bytes) (p : Bytes)
      → IsU32 s.seq
      → let s' = (write_all ps (accept g s to).0 (accept g s to).1).0 in
        ((accept_header s).seq ≡ s.seq)
        × ((write_header s' p).seq ≡ u32 (s.seq + 1 + total ps))
        × ((close_header s').seq ≡ u32 (s.seq + 1 + total ps))
  unfolding accept_header write_header close_header
  sequence_continues s to ps p h =
      let step = ap (λ (t : TcpStream). t.seq) (accept-stream s to) in
      let after = write_all-seq ps (accept g s to).0 (accept g s to).1 (omega (arith, step)) in
      (omega arith, omega (arith, step, after), omega (arith, step, after))

  -- When the channel to the subprocess is full, Write returns an error and queues nothing, but the
  -- bytes of the payload are taken out of the sequence space all the same.
  write_blocked :
      (p packet : Bytes) (s : TcpStream) (to : Chan Bytes)
      → g.network_layer (reply_ip s) ≡ none
      → serialize_tcp g (reply_ip s) (write_header s p) p ≡ ok packet
      → room to ≡ false
      → write g p s to ≡ (
        record s { seq = u32 (s.seq + u32 (length p)) },
        to,
        err (error "channel would have blocked"),
      )
  unfolding write
  write_blocked p packet s to n e full = ground arith
