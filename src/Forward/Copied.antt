-- ===== src/Forward/Copied.antt =====
-- What the copying loop of proxy.go passes on, and what it loses.
use httptap.Shared.{
  ℕ, suc, ◌≡◌, refl, ap, Option, none, some, List, [], ◌∷◌, ◌++◌, Error, error, wrap, eof,
}
use httptap.Packet.{Bytes}
use httptap.Http.Bodies.{Io}
use httptap.Forward.{CopyEnd, at_eof, at_error, proxy_bytes}

-- Reads without an error, and what they carry.
abbrev pub good_reads : List Bytes → List Io
good_reads [] = []
good_reads (c ∷ cs) = (c, none) ∷ good_reads cs

abbrev pub chunks : List (Bytes × Option Error) → List Bytes
chunks [] = []
chunks (w ∷ ws) = w.0 ∷ chunks ws

-- How the loop ends at a Read that returns the error.
abbrev pub end_of : Error → CopyEnd
end_of eof = at_eof
end_of e = at_error e

-- All that was read before the first error is passed to Write, in order, whatever Write returns;
-- nothing after it is. Bytes that come together with the error, io.EOF included, are lost.
pub proxy_bytes_lem :
    (writer : ℕ → Bytes → Option Error) (k : ℕ) (cs : List Bytes) (last : Bytes) (e : Error)
    (later : List Io)
    → let out = proxy_bytes writer k (good_reads cs ++ (last, some e) ∷ later) in
      (chunks out.0 ≡ cs) × (out.1 ≡ end_of e)
unfolding proxy_bytes
proxy_bytes_lem writer k [] last eof later = (refl, refl)
proxy_bytes_lem writer k [] last (error m) later = (refl, refl)
proxy_bytes_lem writer k [] last (wrap m x) later = (refl, refl)
proxy_bytes_lem writer k (c ∷ cs) last e later =
    let ih = proxy_bytes_lem writer (suc k) cs last e later in (ap (λ l. c ∷ l) ih.0, ih.1)
