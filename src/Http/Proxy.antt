-- ===== src/Http/Proxy.antt =====
-- proxyHTTPScheme, proxyHTTP and proxyHTTPS of http.go. The connection, the round tripper and the
-- certificate authority are parameters; deferred Close calls and the log are left out.
pub mod Answers
pub mod Recorded
use httptap.Shared.{
  ℕ, ◌+◌, ◌==◌, ◌≡◌, Bool, true, false, ◌||◌, Option, none, some, List, [], ◌∷◌, ◌++◌, Text, codes,
  same, length, if◌then◌else◌, Error, error, wrap, eof, Result, ok, err,
}
use httptap.Addr.{Ip, ip_string, AddrPort, net_addr_string}
use httptap.Packet.{Bytes}
use httptap.Http.{Header, header_values, HttpRequest, HttpResponse, HttpCall}
use httptap.Http.Bodies.{Io, drain_tee, CountBytesConn, count_read, count_write}
use httptap.Http.Content.{Gzip, decode_content, left_by_decode}

pub record Url : Type 0 where
  pub scheme : Text
  pub host : Text
  pub path : Text

-- http.Request and http.Response. A body is the sequence of its reads.
pub record Request : Type 0 where
  pub method : Text
  pub url : Url
  pub host : Text
  pub header : Header
  pub body : List Io

pub record Response : Type 0 where
  pub proto : Text
  pub proto_major : ℕ
  pub proto_minor : ℕ
  pub status : Text
  pub status_code : ℕ
  pub header : Header
  pub content_length : Option ℕ  -- none is -1
  pub body : List Io

-- What the function is connected to. A round trip is told the address to dial (the value under
-- dialToContextKey); it and the writing of a response come with the reads that they make of the
-- body that they are given.
pub record World : Type 1 where
  pub gzip : Gzip
  pub url_string : Url → Text
  pub error_text : Error → Bytes
  pub round_trip : Request → Text → List Io × Result Response
  pub write_response : Response → List Io × Option Error
  pub conn_reads : List Io  -- the calls of Read and Write on the wrapped connection
  pub conn_writes : List (ℕ × Option Error)

-- The counters of the wrapped connection at the end.
abbrev pub count_reads : CountBytesConn → List Io → CountBytesConn
count_reads c [] = c
count_reads c (r ∷ rs) = count_reads (count_read c r).0 rs

abbrev pub count_writes : CountBytesConn → List (ℕ × Option Error) → CountBytesConn
count_writes c [] = c
count_writes c (w ∷ ws) = count_writes (count_write c w).0 ws

unfoldable pub counts : World → CountBytesConn
counts w =
    count_writes (count_reads (record { read_count = 0; written_count = 0 }) w.conn_reads)
      w.conn_writes

abbrev pub or_else : Text → Text → Text
or_else [] t = t
or_else (c ∷ s) t = c ∷ s

-- The request with an absolute URL.
unfoldable pub absolute : Text → AddrPort → Request → Request
absolute scheme local req = record req {
  url = record req.url {
    host = or_else (or_else req.url.host req.host) (net_addr_string local);
    scheme = or_else req.url.scheme scheme;
  };
}

-- strings.Contains(s, ":").
abbrev pub has_colon : Text → Bool
has_colon [] = false
has_colon (c ∷ s) = c == b':' || has_colon s

unfoldable pub dial_to : Text → Text
dial_to host = if has_colon host then host else host ++ codes ":https"

-- The response that stands in for one that could not be had.
unfoldable pub bad_gateway : World → Error → Response
bad_gateway w e =
    let errbody = w.error_text e in
    record {
      proto = codes "HTTP/1.1";
      proto_major = 1;
      proto_minor = 1;
      status = codes "Bad Gateway";
      status_code = 502;
      header = [];
      content_length = some (length errbody);
      body = (errbody, some eof) ∷ [];
    }

abbrev pub response_of : World → Result Response → Response
response_of w (ok resp) = resp
response_of w (err e) = bad_gateway w e

abbrev pub content_encoding : Header → List Text
content_encoding = header_values (codes "Content-Encoding")

-- The two decodings: what is recorded as the bodies of the request and of the response. `left` is
-- reqbody.Bytes(), what decodeContent has left of the request body.
abbrev pub request_body : Result Bytes → Bytes → Bytes
request_body (ok b) left = b
request_body (err e) left = left

abbrev pub bodies : Result Bytes → Result Bytes → Bytes → Bytes × Bytes
bodies req (ok resp) left = (request_body req left, resp)
bodies req (err e) left = (left, [])

unfoldable pub make_call : World → Request → Response → Bytes → Bytes → HttpCall
make_call w req resp reqbody respbody =
    let (requestbody, responsebody) =
      bodies (decode_content w.gzip reqbody (content_encoding req.header))
        (decode_content w.gzip respbody (content_encoding resp.header))
        (left_by_decode w.gzip reqbody (content_encoding req.header)) in
    let c = counts w in
    record {
      request = record {
        method = req.method;
        url = w.url_string req.url;
        host = req.host;
        header = req.header;
        body = requestbody;
      };
      response = record {
        status_code = resp.status_code;
        status = resp.status;
        header = resp.header;
        body = responsebody;
      };
      total_bytes = c.read_count + c.written_count;
    }

-- What proxyHTTPScheme does: the response that it writes to the connection, with the error of the
-- writing, and the call that it passes to notifyHTTP.
pub record Outcome : Type 0 where
  pub answered : Option (Response × Option Error)
  pub recorded : Option HttpCall

abbrev pub as_http1 : Response → Response
as_http1 resp = record resp { proto = codes "HTTP/1.1"; proto_major = 1; proto_minor = 1 }

unfoldable pub finish_call : World → Request → List Io → Response → Outcome
finish_call w req consumed resp =
    let (read_back, failed) = w.write_response resp in
    elim failed [
      | some e ↦ record { answered = some (resp, some e); recorded = none }
      | none ↦ record {
        answered = some (resp, none);
        recorded = some (make_call w req resp (drain_tee [] consumed).1 (drain_tee [] read_back).1);
      }
    ]

unfoldable pub proxy_http_scheme : World → Text → AddrPort → Result Request → Outcome
proxy_http_scheme w scheme local (err e) = record { answered = none; recorded = none }
proxy_http_scheme w scheme local (ok incoming) =
    let req = absolute scheme local incoming in
    let (consumed, result) = w.round_trip req (dial_to req.url.host) in
    finish_call w req consumed (as_http1 (response_of w result))

unfoldable pub proxy_http : World → AddrPort → Result Request → Outcome
unfolding proxy_http_scheme
proxy_http w local incoming = proxy_http_scheme w (codes "http") local incoming

-- GetCertificate of proxyHTTPS: a certificate for the name of the challenge, with the address that
-- the connection was intercepted at as its alternative name.
unfoldable pub get_certificate :
    {Cert : Type 0} → (Text → List Text → Result Cert) → AddrPort → Text → Result Cert
get_certificate new_cert local server_name =
    elim (new_cert server_name (ip_string local.addr ∷ [])) [
      | ok cert ↦ ok cert
      | err e ↦ err (wrap "error creating on-the-fly certificate" e)
    ]

-- Behind the TLS server, whose handshake is the standard library's, the decrypted connection is
-- served as any other.
unfoldable pub proxy_https : World → AddrPort → Result Request → Outcome
unfolding proxy_http_scheme
proxy_https w local incoming = proxy_http_scheme w (codes "https") local incoming
