-- ===== src/Http/Bodies.antt =====
-- teeReadCloser and countBytesConn of http.go.
use httptap.Shared.{
  ℕ, ◌+◌, ◌≡◌, List, [], ◌∷◌, ◌++◌, append-nil, append_assoc, Option, none, some, length,
  if◌then◌else◌, arith, ltb, Error,
}
use httptap.Packet.{Bytes}

-- The result of one Read or Write: the bytes that it is about, and an error or not.
abbrev pub Io : Type 0
Io = Bytes × Option Error

-- teeReadCloser.Read, with a writer that is given the bytes: an error of the writer replaces that
-- of the reader. The state `W` is the writer's.
unfoldable pub tee_read :
    {W : Type 0} → (W → Bytes → W × ℕ × Option Error) → W → Io → W × ℕ × Option Error
tee_read write w (chunk, e) =
    let (w', n', e') = write w chunk in
    if ltb 0 (length chunk)
    then (elim e' [ none ↦ (w', length chunk, e) | some x ↦ (w', n', some x) ])
    else (w, length chunk, e)

-- bytes.Buffer takes every byte.
abbrev pub buffer_write : Bytes → Bytes → Bytes × ℕ × Option Error
buffer_write buf chunk = (buf ++ chunk, length chunk, none)

-- A reader is used up by calls of Read until one returns an error (io.EOF among them): the bytes
-- that come out, and the writer afterwards.
abbrev pub after_read : Bytes → Option Error → Bytes × Bytes → Bytes × Bytes
after_read chunk (some e) rest = (chunk, rest.1)
after_read chunk none rest = (chunk ++ rest.0, rest.1)

unfoldable pub drain_tee : Bytes → List Io → Bytes × Bytes
drain_tee buf [] = ([], buf)
drain_tee buf ((chunk, e) ∷ reads) =
    let (buf', n, e') = tee_read buffer_write buf (chunk, e) in
    let rest = drain_tee buf' reads in
    elim e' [ some x ↦ (chunk, buf') | none ↦ (chunk ++ rest.0, rest.1) ]

-- The same reads without the tee.
unfoldable pub drain : List Io → Bytes
drain [] = []
drain ((chunk, none) ∷ reads) = chunk ++ drain reads
drain ((chunk, some e) ∷ reads) = chunk

tee_read-buffer :
    (buf chunk : Bytes) (e : Option Error)
    → tee_read buffer_write buf (chunk, e) ≡ (buf ++ chunk, length chunk, e)
unfolding tee_read
tee_read-buffer buf [] e = rw append-nil
tee_read-buffer buf (b ∷ bs) e = ground arith

-- Reading a body to its end through a tee into a buffer yields the bytes that reading it directly
-- yields, and the buffer has gained exactly those bytes, in order.
pub drain_tee_lem :
    (buf : Bytes) (reads : List Io) → drain_tee buf reads ≡ (drain reads, buf ++ drain reads)
unfolding drain_tee drain
drain_tee_lem buf [] = rw append-nil
drain_tee_lem buf ((chunk, some e) ∷ reads) = ground (arith, tee_read-buffer buf chunk (some e))
drain_tee_lem buf ((chunk, none) ∷ reads) = ground (
  arith,
  tee_read-buffer buf chunk none,
  drain_tee_lem (buf ++ chunk) reads,
  append_assoc buf chunk (drain reads),
)

-- countBytesConn: the bytes of each call are added to its counter, whether it fails or not.
pub record CountBytesConn : Type 0 where
  pub read_count : ℕ  -- int64
  pub written_count : ℕ  -- int64

unfoldable pub count_read : CountBytesConn → Io → CountBytesConn × Io
count_read c (chunk, e) = (record c { read_count = c.read_count + length chunk }, (chunk, e))

unfoldable pub count_write : CountBytesConn → ℕ × Option Error → CountBytesConn × (ℕ × Option Error)
count_write c (n, e) = (record c { written_count = c.written_count + n }, (n, e))
