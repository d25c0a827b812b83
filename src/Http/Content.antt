-- ===== src/Http/Content.antt =====
-- decodeContent of http.go: the body behind its Content-Encoding values, from the last to the first.
-- compress/gzip is a parameter.
pub mod RoundTrip
use mathlib.Core.List.{reverse}
use httptap.Shared.{
  ℕ, ◌+◌, ◌≡◌, Bool, true, false, ◌&&◌, List, [], ◌∷◌, map, All, if◌then◌else◌, leb, same, Text,
  codes, error, wrap, Result, ok, err,
}
use httptap.Packet.{Bytes}

-- strings.ToLower, on ASCII text.
abbrev pub lower : ℕ → ℕ
lower c = if leb b'A' c && leb c b'Z' then c + 32 else c

unfoldable pub to_lower : Text → Text
to_lower s = map lower s

-- Readers: gzip.NewReader reads the header and fails on a bad one; what it returns is read later.
-- What is left in the buffer beneath a reader: as it stands, after a NewReader on it that has
-- failed, and after a ReadAll.
pub record Gzip : Type 1 where
  pub Reader : Type 0
  pub from_buffer : Bytes → Reader
  pub new_reader : Reader → Result Reader
  pub read_all : Reader → Result Bytes
  pub unread : Reader → Bytes
  pub unread_failed : Reader → Bytes
  pub unread_all : Reader → Bytes

-- gzip as its documentation has it: what a buffer holds is read from it, and a reader of compressed
-- bytes is one through which the bytes are read that were compressed.
pub record IsGzip (z : Gzip) (compress : Bytes → Bytes) : Type 0 where
  pub read_buffer : (b : Bytes) → z.read_all (z.from_buffer b) ≡ ok b
  pub read_compressed :
      (r : z.Reader) (b : Bytes)
      → z.read_all r ≡ ok (compress b)
      → (r' : z.Reader) × (z.new_reader r ≡ ok r') × (z.read_all r' ≡ ok b)

abbrev pub is_gzip : Text → Bool
is_gzip e = same (to_lower e) (codes "gzip")

module _ (z : Gzip) where
  -- The loop, over the encodings from the last to the first.
  unfoldable pub decode_loop : List Text → z.Reader → Result Bytes
  decode_loop [] r = z.read_all r
  decode_loop (e ∷ es) r = elim (is_gzip e) [
    | true ↦ elim (z.new_reader r) [
      | ok r' ↦ decode_loop es r'
      | err x ↦ err (wrap "error gzip-decoding" x)
    ]
    | false ↦ err (error "unsupported content encoding")
  ]

  unfoldable pub decode_content : Bytes → List Text → Result Bytes
  unfolding decode_loop
  decode_content body encodings = decode_loop (reverse encodings) (z.from_buffer body)

  -- What decodeContent leaves in the buffer, by the return that it takes.
  unfoldable pub left_by_loop : List Text → z.Reader → Bytes
  left_by_loop [] r = z.unread_all r
  left_by_loop (e ∷ es) r = elim (is_gzip e) [
    | true ↦ elim (z.new_reader r) [ ok r' ↦ left_by_loop es r' | err x ↦ z.unread_failed r ]
    | false ↦ z.unread r
  ]

  unfoldable pub left_by_decode : Bytes → List Text → Bytes
  unfolding left_by_loop
  left_by_decode body encodings = left_by_loop (reverse encodings) (z.from_buffer body)

-- io.ReadAll as its documentation has it: if it succeeds, it has read up to the end of the buffer
-- beneath, through readers of gzip too, which go on with the next member of a file.
pub record ReadsToEnd (z : Gzip) : Type 0 where
  pub read_to_end : (r : z.Reader) (b : Bytes) → z.read_all r ≡ ok b → z.unread_all r ≡ []

-- The body as a server sends it that has applied the encodings, all of them gzip, in their order.
abbrev pub encode : (Bytes → Bytes) → List Text → Bytes → Bytes
encode compress [] b = b
encode compress (e ∷ es) b = encode compress es (compress b)

abbrev pub AllGzip : List Text → Type 0
AllGzip = All (λ e. is_gzip e ≡ true)
