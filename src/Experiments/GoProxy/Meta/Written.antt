-- ===== src/Experiments/GoProxy/Meta/Written.antt =====
-- What WriteTo of experiments/goproxy writes, and when it stops.
use httptap.Shared.{
  ℕ, ◌+◌, ◌≡◌, refl, ap, sym, ◌∙◌, Option, none, some, List, [], ◌∷◌, ◌++◌, append-nil,
  append_assoc, Text, codes, itoa, Error,
}
use httptap.Packet.{Bytes}
use httptap.Experiments.GoProxy.Meta.{
  Request, Response, Meta, Writer, Progress, nothing_written, write_more, write_at, type_line,
  dumped, last_part, write_to,
}

abbrev type_pieces : Option Request → Option Response → List Bytes
type_pieces (some r) resp = codes "Type: request\r\n" ∷ []
type_pieces none (some r) = codes "Type: response\r\n" ∷ []
type_pieces none none = []

abbrev dump_pieces : Bytes → Option Error → List Bytes
dump_pieces b (some e) = codes "\r\n" ∷ []
dump_pieces b none = codes "\r\n" ∷ b ∷ []

abbrev last_pieces : Option Text → Option Request → Option Response → List Bytes
last_pieces (some e) req resp = (codes "Error: " ++ (e ++ codes "\r\n\r\n\r\n\r\n")) ∷ []
last_pieces none (some r) resp = dump_pieces r.dump r.dump_error
last_pieces none none (some r) = dump_pieces r.dump r.dump_error
last_pieces none none none = []

-- The pieces of a Meta, in order.
abbrev pub pieces : Meta → List Bytes
pieces m =
    type_pieces m.req m.resp
    ++ ((codes "ReceivedAt: " ++ (m.t ++ codes "\r\n"))
        ∷ (codes "Session: " ++ (itoa m.sess ++ codes "\r\n"))
        ∷ (codes "From: " ++ (m.from ++ codes "\r\n"))
        ∷ last_pieces m.err m.req m.resp)

-- The error of the dump, which replaces that of the writer; a Meta with an error has no dump.
abbrev pub dump_error : Option Text → Option Request → Option Response → Option Error
dump_error (some e) req resp = none
dump_error none (some r) resp = r.dump_error
dump_error none none (some r) = r.dump_error
dump_error none none none = none

abbrev pub ended_by : Option Error → Progress → Progress
ended_by none p = p
ended_by (some e) p = record p { err = some e }

-- After a piece that has been handed to the writer: go on, unless it has failed.
abbrev after_piece :
    (ℕ → List Bytes → Progress) → Bytes → ℕ → List Bytes → ℕ × Option Error → Progress
after_piece next b nr out (n, none) = next (nr + n) (out ++ b ∷ [])
after_piece next b nr out (n, some e) = record {
  nr = nr + n;
  err = some e;
  written = out ++ b ∷ [];
}

module _ (w : Writer) where
  -- To write the pieces in turn, after `nr` bytes, and to stop after the first that fails.
  abbrev pub write_pieces : List Bytes → ℕ → List Bytes → Progress
  write_pieces [] nr out = record { nr = nr; err = none; written = out }
  write_pieces (b ∷ bs) nr out = after_piece (write_pieces bs) b nr out (w out b)

  write_more-last :
      (c : Bytes) (bs : List Bytes) (nr : ℕ) (out : List Bytes)
      → write_more w c (write_pieces bs nr out) ≡ write_pieces (bs ++ c ∷ []) nr out
  unfolding write_more
  write_more-last c [] nr out = one (w out c)
    where
      one :
          (r : ℕ × Option Error)
          → write_at w c (record { nr = nr; err = none; written = out }) r
            ≡ after_piece (write_pieces []) c nr out r
      one (n, none) = refl
      one (n, some e) = refl
  write_more-last c (b ∷ bs) nr out = one (write_more-last c bs) (w out b)
    where
      one :
          ((k : ℕ) (o : List Bytes)
            → write_more w c (write_pieces bs k o) ≡ write_pieces (bs ++ c ∷ []) k o)
          → (r : ℕ × Option Error)
          → write_more w c (after_piece (write_pieces bs) b nr out r)
            ≡ after_piece (write_pieces (bs ++ c ∷ [])) b nr out r
      one ih (n, none) = ih (nr + n) (out ++ b ∷ [])
      one ih (n, some e) = refl

  type_line-pieces :
      (req : Option Request) (resp : Option Response) (out : List Bytes)
      → type_line w req resp (nothing_written out) ≡ write_pieces (type_pieces req resp) 0 out
  type_line-pieces (some r) resp out = write_more-last _ [] 0 out
  type_line-pieces none (some r) out = write_more-last _ [] 0 out
  type_line-pieces none none out = refl

  module _ (bs : List Bytes) (nr : ℕ) (out : List Bytes) where
    dumped-pieces :
        (b : Bytes) (e : Option Error)
        → dumped w b e (write_more w (codes "\r\n") (write_pieces bs nr out))
          ≡ ended_by e (write_pieces (bs ++ dump_pieces b e) nr out)
    dumped-pieces b (some e) = ap (ended_by (some e)) (write_more-last (codes "\r\n") bs nr out)
    dumped-pieces b none =
        ap (write_more w b) (write_more-last (codes "\r\n") bs nr out)
        ∙ write_more-last b (bs ++ codes "\r\n" ∷ []) nr out
        ∙ ap (λ l. write_pieces l nr out) (append_assoc bs (codes "\r\n" ∷ []) (b ∷ []))

    last_part-pieces :
        (err : Option Text) (req : Option Request) (resp : Option Response)
        → last_part w err req resp (write_pieces bs nr out)
          ≡ ended_by
              (dump_error err req resp)
              (write_pieces (bs ++ last_pieces err req resp) nr out)
    last_part-pieces (some e) req resp = write_more-last _ bs nr out
    last_part-pieces none (some r) resp = dumped-pieces r.dump r.dump_error
    last_part-pieces none none (some r) = dumped-pieces r.dump r.dump_error
    last_part-pieces none none none = ap (λ l. write_pieces l nr out) (sym (append-nil bs))

  -- WriteTo, which goes through all of its writes and skips those that follow an error, does the
  -- same as to write the pieces of the Meta in turn and to stop after the first that fails: the
  -- same bytes are handed to the writer, the count is that of the bytes which it has written, and
  -- the error is that of the writer, or that of the dump, where a dump has failed.
  pub write_to_lem :
      (m : Meta) (out : List Bytes)
      → write_to w m out ≡ ended_by (dump_error m.err m.req m.resp) (write_pieces (pieces m) 0 out)
  unfolding write_to
  write_to_lem m out =
      let t = type_pieces m.req m.resp in
      let last = last_pieces m.err m.req m.resp in
      let a = codes "ReceivedAt: " ++ (m.t ++ codes "\r\n") in
      let b = codes "Session: " ++ (itoa m.sess ++ codes "\r\n") in
      let c = codes "From: " ++ (m.from ++ codes "\r\n") in
      ap (λ p. last_part w m.err m.req m.resp (write_more w c (write_more w b (write_more w a p))))
        (type_line-pieces m.req m.resp out)
      ∙ ap (λ p. last_part w m.err m.req m.resp (write_more w c (write_more w b p)))
          (write_more-last a t 0 out)
      ∙ ap (λ p. last_part w m.err m.req m.resp (write_more w c p))
          (write_more-last b (t ++ a ∷ []) 0 out)
      ∙ ap (last_part w m.err m.req m.resp) (write_more-last c ((t ++ a ∷ []) ++ b ∷ []) 0 out)
      ∙ last_part-pieces (((t ++ a ∷ []) ++ b ∷ []) ++ c ∷ []) 0 out m.err m.req m.resp
      ∙ ap (λ l. ended_by (dump_error m.err m.req m.resp) (write_pieces l 0 out))
          (append_assoc ((t ++ a ∷ []) ++ b ∷ []) (c ∷ []) last
            ∙ append_assoc (t ++ a ∷ []) (b ∷ []) (c ∷ last)
            ∙ append_assoc t (a ∷ []) (b ∷ c ∷ last))
