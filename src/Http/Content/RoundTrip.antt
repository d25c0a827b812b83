-- ===== src/Http/Content/RoundTrip.antt =====
-- Decoding undoes encoding, and refuses what it does not know.
use mathlib.Core.List.{reverse, reverse-cons, reverse-append}
use mathlib.Core.Path.{subst}
use httptap.Shared.{
  arith, ◌≡◌, refl, ap, sym, ◌∙◌, true, false, List, [], ◌∷◌, ◌++◌, append_assoc, All-append, Text,
  Error, error, wrap, Result, ok, err, Bool-cases, inl, inr,
}
use httptap.Packet.{Bytes}
use httptap.Http.Content.{
  Gzip, IsGzip, is_gzip, decode_loop, decode_content, left_by_loop, left_by_decode, ReadsToEnd,
  encode, AllGzip,
}

encode_comm :
    (compress : Bytes → Bytes) (es : List Text) (b : Bytes)
    → encode compress es (compress b) ≡ compress (encode compress es b)
encode_comm compress [] b = refl
encode_comm compress (e ∷ es) b = encode_comm compress es (compress b)

encode-append :
    (compress : Bytes → Bytes) (es fs : List Text) (b : Bytes)
    → encode compress (es ++ fs) b ≡ encode compress fs (encode compress es b)
encode-append compress [] fs b = refl
encode-append compress (e ∷ es) fs b = encode-append compress es fs (compress b)

encode-reverse :
    (compress : Bytes → Bytes) (es : List Text) (b : Bytes)
    → encode compress (reverse es) b ≡ encode compress es b
encode-reverse compress [] b = refl
encode-reverse compress (e ∷ es) b =
    ap (λ l. encode compress l b) (reverse-cons e es)
    ∙ encode-append compress (reverse es) (e ∷ []) b
    ∙ ap compress (encode-reverse compress es b)
    ∙ sym (encode_comm compress es b)

AllGzip-reverse : (es : List Text) → AllGzip es → AllGzip (reverse es)
AllGzip-reverse [] h = tt
AllGzip-reverse (e ∷ es) h =
    subst AllGzip (sym (reverse-cons e es))
      (All-append (λ x. is_gzip x ≡ true) (reverse es) (e ∷ []) (AllGzip-reverse es h.1) (h.0, tt))

module _ (z : Gzip) where
  left_by_loop-ok :
      ReadsToEnd z
      → (es : List Text) (r : z.Reader) (b : Bytes) → decode_loop z es r ≡ ok b
      → left_by_loop z es r ≡ []
  unfolding decode_loop left_by_loop
  left_by_loop-ok law [] r b h = law.read_to_end r b h
  left_by_loop-ok law (e ∷ es) r b h = elim (Bool-cases (is_gzip e)) [
    | inl g ↦ opened (z.new_reader r) refl g (λ r'. left_by_loop-ok law es r' b)
    | inr n ↦ absurd (ground arith)
  ]
    where
      opened :
          (o : Result z.Reader)
          → z.new_reader r ≡ o
          → is_gzip e ≡ true
          → ((r' : z.Reader) → decode_loop z es r' ≡ ok b → left_by_loop z es r' ≡ [])
          → left_by_loop z (e ∷ es) r ≡ []
      opened (ok r') ho g ih = rw (g, ho, left_by_loop) (ih r' (ground arith))
      opened (err x) ho g ih = absurd (ground arith)

  -- A body that is decoded leaves nothing in its buffer.
  pub left_by_decode-ok :
      ReadsToEnd z
      → (body : Bytes) (encodings : List Text) (b : Bytes) → decode_content z body encodings ≡ ok b
      → left_by_decode z body encodings ≡ []
  unfolding decode_content left_by_decode
  left_by_decode-ok law body encodings b h =
      left_by_loop-ok law (reverse encodings) (z.from_buffer body) b h

  decode_loop_gzip :
      (compress : Bytes → Bytes)
      → IsGzip z compress
      → (es : List Text) (r : z.Reader) (b : Bytes) → AllGzip es
      → z.read_all r ≡ ok (encode compress es b)
      → decode_loop z es r ≡ ok b
  unfolding decode_loop
  decode_loop_gzip compress law [] r b h e = e
  decode_loop_gzip compress law (x ∷ es) r b h e =
      let (r', opened, rest) =
        law.read_compressed r (encode compress es b)
          (e ∙ ap (λ y. ok y) (encode_comm compress es b)) in
      rw (h.0, opened, decode_loop) (decode_loop_gzip compress law es r' b h.1 rest)

  -- For a gzip library that undoes `compress`, a body that was compressed once for each of its
  -- Content-Encoding values, all of which name gzip in some mixture of cases, is decoded to what it
  -- was before.
  pub decode-encode :
      (compress : Bytes → Bytes)
      → IsGzip z compress
      → (encodings : List Text) (body : Bytes) → AllGzip encodings
      → decode_content z (encode compress encodings body) encodings ≡ ok body
  unfolding decode_content
  decode-encode compress law encodings body h =
      decode_loop_gzip compress law (reverse encodings) _ body (AllGzip-reverse encodings h) (
        law.read_buffer (encode compress encodings body)
        ∙ ap (λ y. ok y) (sym (encode-reverse compress encodings body)))

  decode_loop_unknown :
      (es fs : List Text) (bad : Text) (r : z.Reader)
      → is_gzip bad ≡ false
      → (x : Error) × (decode_loop z (es ++ bad ∷ fs) r ≡ err x)
  unfolding decode_loop
  decode_loop_unknown [] fs bad r h = (error "unsupported content encoding", rw (h, decode_loop))
  decode_loop_unknown (e ∷ es) fs bad r h = elim (Bool-cases (is_gzip e)) [
    | inl g ↦ opened (z.new_reader r) refl g (λ r'. decode_loop_unknown es fs bad r' h)
    | inr n ↦ (error "unsupported content encoding", rw (n, decode_loop))
  ]
    where
      opened :
          (o : Result z.Reader)
          → z.new_reader r ≡ o
          → is_gzip e ≡ true
          → ((r' : z.Reader) → (x : Error) × (decode_loop z (es ++ bad ∷ fs) r' ≡ err x))
          → (x : Error) × (decode_loop z (e ∷ (es ++ bad ∷ fs)) r ≡ err x)
      opened (ok r') ho g ih = let (x, h') = ih r' in (x, rw (g, ho, decode_loop) h')
      opened (err x) ho g ih = (wrap "error gzip-decoding" x, rw (g, ho, decode_loop))

  -- A body with a Content-Encoding value other than gzip, wherever it stands among the values, is
  -- never decoded: the result is an error.
  pub decode_unknown :
      (body : Bytes) (es fs : List Text) (bad : Text)
      → is_gzip bad ≡ false
      → (x : Error) × (decode_content z body (es ++ bad ∷ fs) ≡ err x)
  unfolding decode_content
  decode_unknown body es fs bad h =
      let (x, e) = decode_loop_unknown (reverse fs) (reverse es) bad (z.from_buffer body) h in
      (
        x,
        ap (λ l. decode_loop z l (z.from_buffer body))
              (reverse-append es (bad ∷ fs)
                ∙ ap (λ l. l ++ reverse es) (reverse-cons bad fs)
                ∙ append_assoc (reverse fs) (bad ∷ []) (reverse es))
            ∙ e,
      )
