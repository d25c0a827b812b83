-- ===== src/Http/Proxy/Recorded.antt =====
-- What is recorded of a request and its response.
use httptap.Shared.{ℕ, ◌+◌, ◌≡◌, ap, ◌∙◌, Option, List, [], ◌∷◌, length, Error, ok, err}
use httptap.Packet.{Bytes}
use httptap.Http.Bodies.{Io}
use httptap.Http.Content.{decode_content, left_by_decode, ReadsToEnd}
use httptap.Http.Content.RoundTrip.{left_by_decode-ok}
use httptap.Http.Proxy.{Request, Response, World, content_encoding, bodies, make_call}

abbrev pub read_total : List Io → ℕ
read_total [] = 0
read_total (r ∷ rs) = length r.0 + read_total rs

abbrev pub written_total : List (ℕ × Option Error) → ℕ
written_total [] = 0
written_total (w ∷ ws) = w.0 + written_total ws

-- When the response body cannot be decoded, the recorded response body is empty, although the log
-- announces its raw bytes; and if the request body had been decoded, it is recorded as empty too.
make_call_undecodable :
    (w : World) (req : Request) (resp : Response) (reqbody respbody sent : Bytes) (e : Error)
    → ReadsToEnd w.gzip
    → decode_content w.gzip reqbody (content_encoding req.header) ≡ ok sent
    → decode_content w.gzip respbody (content_encoding resp.header) ≡ err e
    → ((make_call w req resp reqbody respbody).response.body ≡ [])
      × ((make_call w req resp reqbody respbody).request.body ≡ [])
unfolding make_call
make_call_undecodable w req resp reqbody respbody sent e law hs h =
    let first = decode_content w.gzip reqbody (content_encoding req.header) in
    let left = left_by_decode w.gzip reqbody (content_encoding req.header) in
    (
      ap (λ x. (bodies first x left).1) h,
      ap (λ x. (bodies first x left).0) h
          ∙ left_by_decode-ok w.gzip law reqbody (content_encoding req.header) sent hs,
    )
