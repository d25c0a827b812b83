-- ===== src/Http/Proxy/Answers.antt =====
-- What the subprocess is answered, and where its requests go.
use httptap.Shared.{
  ℕ, ◌≡◌, ◌≢◌, refl, ap, ◌∙◌, true, false, some, [], ◌∷◌, ◌++◌, Text, codes, Error, ok, err, arith,
  Bool-cases, Option-cases, inl, inr, none, List, ◌↔◌,
}
use httptap.Addr.{AddrPort, net_addr_string}
use httptap.Http.Bodies.{Io, drain}
use httptap.Http.Proxy.{
  Request, Response, World, or_else, absolute, has_colon, dial_to, bad_gateway, response_of,
  as_http1, finish_call, proxy_http_scheme, proxy_http,
}

append_ne_nil : (xs : Text) (y : ℕ) (ys : Text) → xs ++ y ∷ ys ≢ []
append_ne_nil [] y ys e = cc
append_ne_nil (x ∷ xs) y ys e = cc

or_else_ne_nil : (s t : Text) → t ≢ [] → or_else s t ≢ []
or_else_ne_nil [] t h = h
or_else_ne_nil (c ∷ s) t h = λ e. cc

or_else_left : (s t : Text) → s ≢ [] → or_else s t ≡ s
or_else_left [] t h = absurd (h refl)
or_else_left (c ∷ s) t h = refl

-- For a default scheme that is not empty, the request that is sent out always has a scheme and a host. Those of the incoming URL are kept
-- if they are there; a missing host is that of the Host header, or else the address that the
-- connection was intercepted at.
absolute_lem :
    (scheme : Text) (local : AddrPort) (req : Request)
    → scheme ≢ []
    → let url = (absolute scheme local req).url in
      (url.scheme ≢ [])
      × (url.host ≢ [])
      × (req.url.scheme ≢ [] → url.scheme ≡ req.url.scheme)
      × (req.url.host ≢ [] → url.host ≡ req.url.host)
      × (req.url.host ≡ [] → req.host ≢ [] → url.host ≡ req.host)
      × (req.url.host ≡ [] → req.host ≡ [] → url.host ≡ net_addr_string local)
      × (url.path ≡ req.url.path)
unfolding absolute net_addr_string
absolute_lem scheme local req hs = (
  or_else_ne_nil req.url.scheme scheme hs,
  or_else_ne_nil _ _ (append_ne_nil _ _ _),
  or_else_left req.url.scheme scheme,
  λ h.
      ap (λ x. or_else x (net_addr_string local)) (or_else_left req.url.host req.host h)
      ∙ or_else_left req.url.host (net_addr_string local) h,
  λ h k.
      ap (λ x. or_else (or_else x req.host) (net_addr_string local)) h
      ∙ or_else_left req.host (net_addr_string local) k,
  λ h k.
      ap (λ x. or_else (or_else x req.host) (net_addr_string local)) h
      ∙ ap (λ x. or_else x (net_addr_string local)) k,
  refl,
)

-- What is written, and when the call is recorded.
finish_call_cases :
    (w : World) (req : Request) (consumed : List Io) (resp : Response)
    → ((finish_call w req consumed resp).answered ≡ some (resp, (w.write_response resp).1))
      × (((finish_call w req consumed resp).recorded ≢ none) ↔ ((w.write_response resp).1 ≡ none))
unfolding finish_call
finish_call_cases w req consumed resp = elim (Option-cases (w.write_response resp).1) [
  | inl good ↦ (ground arith, (λ h. good, λ e h. ground arith))
  | inr (x, bad) ↦ (ground arith, (λ h. absurd (h (ground arith)), λ e h. ground arith))
]

-- For every request that can be read, one response is written to the subprocess, in HTTP/1.1: with
-- the status and the body of the world's response, or, if there is none, with status 502 and the
-- text of the error as the body. The call is recorded if and only if the writing does not fail.
pub proxy_answers :
    (w : World) (scheme : Text) (local : AddrPort) (incoming : Request)
    → let req = absolute scheme local incoming in
      let result = (w.round_trip req (dial_to req.url.host)).1 in
      let out = proxy_http_scheme w scheme local (ok incoming) in
      (resp : Response) × (out.answered ≡ some (resp, (w.write_response resp).1))
      × (resp.proto ≡ codes "HTTP/1.1")
      × (resp.proto_major ≡ 1)
      × (resp.proto_minor ≡ 1)
      × ((r : Response) → result ≡ ok r → (resp.status_code ≡ r.status_code) × (resp.body ≡ r.body))
      × ((e : Error)
          → result ≡ err e
          → (resp.status_code ≡ 502) × (drain resp.body ≡ w.error_text e))
      × ((out.recorded ≢ none) ↔ ((w.write_response resp).1 ≡ none))
unfolding proxy_http_scheme finish_call bad_gateway drain
proxy_answers w scheme local incoming =
    let req = absolute scheme local incoming in
    let (consumed, result) = w.round_trip req (dial_to req.url.host) in
    let resp = as_http1 (response_of w result) in
    let (answered, recorded) = finish_call_cases w req consumed resp in
    (
      resp,
      answered,
      refl,
      refl,
      refl,
      λ r h. (ap (λ x. (response_of w x).status_code) h, ap (λ x. (response_of w x).body) h),
      λ e h. (ap (λ x. (response_of w x).status_code) h, ap (λ x. drain (response_of w x).body) h),
      recorded,
    )

has_colon-append : (s t : Text) → has_colon t ≡ true → has_colon (s ++ t) ≡ true
has_colon-append [] t h = h
has_colon-append (c ∷ s) t h = ground (arith, has_colon-append s t h)

-- The dialled address always has a port, and that of the URL is kept if there is one.
pub dial_to-has_colon :
    (host : Text)
    → (has_colon (dial_to host) ≡ true) × (has_colon host ≡ true → dial_to host ≡ host)
unfolding dial_to
dial_to-has_colon host = elim (Bool-cases (has_colon host)) [
  | inl h ↦ (rw (h, dial_to) h, λ _. rw h)
  | inr h ↦ (rw (h, dial_to) (has_colon-append host (codes ":https") refl), λ k. ground arith)
]

portless : (host : Text) → has_colon host ≡ false → dial_to host ≡ host ++ codes ":https"
unfolding dial_to
portless host h = rw (h, dial_to)

-- A plain HTTP request whose URL names a host and no port is sent to the HTTPS port of that host.
plain_http_dials_https :
    (w : World) (local : AddrPort) (incoming : Request)
    → incoming.url.host ≢ []
    → has_colon incoming.url.host ≡ false
    → let req = absolute (codes "http") local incoming in
      let out = w.round_trip req (incoming.url.host ++ codes ":https") in
      proxy_http w local (ok incoming) ≡ finish_call w req out.0 (as_http1 (response_of w out.1))
unfolding proxy_http
plain_http_dials_https w local incoming ne nc =
    let req = absolute (codes "http") local incoming in
    let host = (absolute_lem (codes "http") local incoming (λ e. cc)).3 ne in
    ap
      (λ h.
        let out = w.round_trip req h in finish_call w req out.0 (as_http1 (response_of w out.1)))
      (ap dial_to host ∙ portless incoming.url.host nc)
