-- ===== src/Har/Recorded.antt =====
-- What the recording round tripper keeps, and that its caller does not notice it.
use mathlib.Core.Option.{some-injective}
use httptap.Shared.{
  ◌⊎◌, ◌≡◌, refl, ap, sym, ◌∙◌, Option, none, some, List, [], ◌∷◌, ◌++◌, Text, codes, same, true,
  length, pos, negsuc, Error, Result, ok, err, arith, inl, inr,
}
use httptap.Packet.{Bytes}
use httptap.Har.Types.{Time, HarEntry, HarContainer, HarRequest, Param, PostData}
use httptap.Har.Timing.{Hook}
use httptap.Har.Update.{
  Parsers, Body, ClientRequest, ClientResponse, find_param, get_header, update_entry_with_request,
  post_params, request_params, with_params, har_request,
}
use httptap.Har.Transport.{
  RoundTripper, Transport, init_har, append_entry, RoundTripped, round_trip, pre_round_trip,
  post_round_trip, finish_round_trip, after_pre, unusual, base, zero_entry, source, read_source,
  as_some, pre_source, pre_body, post_read, call_base,
}

module _ (p : Parsers) (default : RoundTripper) (start end' : Time) (t : Transport) where
  finish_appends :
      (r : ClientRequest) (resp : Option ClientResponse) (entry : HarEntry) (real u : Option Error)
      → (e : HarEntry) × ((finish_round_trip p default start end' t r resp entry real u).har
          ≡ append_entry (init_har t.har) e)
  finish_appends r resp entry real none = (_, refl)
  finish_appends r resp entry real (some x) = (_, refl)

  after_pre_appends :
      (r : ClientRequest) (entry : HarEntry) (u : Option Error)
      → (e : HarEntry) × ((after_pre p default start end' t r entry u).har
          ≡ append_entry (init_har t.har) e)
  after_pre_appends r entry none = finish_appends (record r { body = (base t default r).0 }) _ _ _ _
  after_pre_appends r entry (some x) = (entry, refl)

  -- However a call ends, with a response, an error of the network, or an error of its own, it adds
  -- exactly one entry at the end of the log, and changes nothing else in it.
  round_trip_records :
      (r : ClientRequest)
      → (e : HarEntry) × ((round_trip p default start end' t r).har.log.entries
          ≡ (init_har t.har).log.entries ++ e ∷ [])
        × ((round_trip p default start end' t r).har.log.version ≡ (init_har t.har).log.version)
        × ((round_trip p default start end' t r).har.log.pages ≡ (init_har t.har).log.pages)
  unfolding round_trip append_entry
  round_trip_records r =
      let (e, h) = after_pre_appends _ _ _ in
      (
        e,
        ap (λ (c : HarContainer). c.log.entries) h,
        ap (λ (c : HarContainer). c.log.version) h,
        ap (λ (c : HarContainer). c.log.pages) h,
      )

  unusual-none :
      (e : Option Error)
      → ((x : Error) → unusual t.unusual_error (some x) ≡ none)
      → unusual t.unusual_error e ≡ none
  unusual-none none h = refl
  unusual-none (some x) h = h x

  rebuilt : (b : Body) → b.fails ≡ none → record { bytes = b.bytes; fails = none } ≡ b
  rebuilt b h = λ i. record { bytes = b.bytes; fails = sym h i }

  same_request :
      (r : ClientRequest) (b : Body)
      → r.body ≡ some b
      → b.fails ≡ none
      → record r { body = some record { bytes = b.bytes; fails = none } } ≡ r
  same_request r b hb hf =
      ap (λ c. record r { body = some c }) (rebuilt b hf) ∙ (λ i. record r { body = sym hb i })

  own_source :
      (r : ClientRequest)
      → (r.get_body ≡ none) ⊎ (r.get_body ≡ some (ok r.body))
      → source r r.get_body ≡ ok r.body
  own_source r (inl h) = ap (source r) h
  own_source r (inr h) = ap (source r) h

  pre_readable :
      (r : ClientRequest) (b : Body)
      → source r r.get_body ≡ ok r.body
      → r.body ≡ some b
      → b.fails ≡ none
      → (pre_round_trip p r zero_entry).0 ≡ r
  unfolding pre_round_trip
  pre_readable r b hg hb hf =
      ap (λ x. (pre_source p r zero_entry x).0) hg
      ∙ ap (λ o. (pre_body p r zero_entry o (read_source o)).0) hb
      ∙ ap
          (λ f.
            (pre_body p r zero_entry (some b)
              (as_some (elim f [ none ↦ ok b.bytes | some e ↦ err e ]))).0)
          hf
      ∙ same_request r b hb hf

  post_readable :
      (resp : ClientResponse) (entry : HarEntry)
      → resp.body.fails ≡ none
      → let out = post_round_trip p resp entry in (out.0 ≡ resp)
  unfolding post_round_trip
  post_readable resp entry hr =
      ap (λ f. (post_read p resp entry (elim f [ none ↦ ok resp.body.bytes | some e ↦ err e ])).0)
        hr
      ∙ (λ i. record resp { body = rebuilt resp.body hr i })

  finish_returns :
      (r : ClientRequest) (resp : Option ClientResponse) (entry : HarEntry) (real u : Option Error)
      → u ≡ none
      → let out = finish_round_trip p default start end' t r resp entry real u in
        (out.request ≡ r) × (out.response ≡ resp) × (out.failure ≡ real)
  finish_returns r resp entry real none h = (refl, refl, refl)
  finish_returns r resp entry real (some x) h = absurd (cc)

  call_base_returns :
      (r : ClientRequest) (entry : HarEntry) (left : Option Body) (hooks : List (Hook × Time))
      (resp : ClientResponse) (real : Option Error)
      → ((x : Error) → unusual t.unusual_error (some x) ≡ none)
      → resp.body.fails ≡ none
      → let out = call_base p default start end' t r entry (left, hooks, some resp, real) in
        (out.request ≡ record r { body = left }) × (out.response ≡ some resp) × (out.failure ≡ real)
  call_base_returns r entry left hooks resp real hu hr =
      let (a, c, d) = finish_returns (record r { body = left }) _ _ real _ (unusual-none _ hu) in
      (a, c ∙ ap (λ x. some x) (post_readable resp entry hr), d)

  -- Where UnusualError is not set or returns no error, the request's GetBody is not set or returns its body, and both
  -- bodies can be read, the round tripper below is given the request as it came, its body included,
  -- and the caller gets what that returns for it: its response, body included, and its error; and
  -- the caller's request is left as that leaves it, with what it has left of the body.
  pub round_trip_transparent :
      (r : ClientRequest) (b : Body) (left : Option Body) (hooks : List (Hook × Time))
      (resp : ClientResponse) (real : Option Error)
      → ((x : Error) → unusual t.unusual_error (some x) ≡ none)
      → (r.get_body ≡ none) ⊎ (r.get_body ≡ some (ok r.body))
      → r.body ≡ some b
      → b.fails ≡ none
      → base t default r ≡ (left, hooks, some resp, real)
      → resp.body.fails ≡ none
      → ((round_trip p default start end' t r).request ≡ record r { body = left })
        × ((round_trip p default start end' t r).response ≡ some resp)
        × ((round_trip p default start end' t r).failure ≡ real)
  unfolding round_trip pre_round_trip post_round_trip
  round_trip_transparent r b left hooks resp real hu hg hb hf hc hr =
      let pre = pre_round_trip p r zero_entry in
      let same_r = pre_readable r b (own_source r hg) hb hf in
      let (a, c, d) = call_base_returns pre.0 pre.1 left hooks resp real hu hr in
      let called = ap (base t default) same_r ∙ hc in
      let out : round_trip p default start end' t r
          ≡ call_base p default start end' t pre.0 pre.1 (left, hooks, some resp, real) =
        ap (λ u. after_pre p default start end' t pre.0 pre.1 u) (unusual-none pre.2 hu)
        ∙ ap (λ x. call_base p default start end' t pre.0 pre.1 x) called in
      (
        ap (λ (o : RoundTripped). o.request) out
            ∙ a
            ∙ ap (λ (q : ClientRequest). record q { body = left }) same_r,
        ap (λ (o : RoundTripped). o.response) out ∙ c,
        ap (λ (o : RoundTripped). o.failure) out ∙ d,
      )

abbrev pub posted : Option PostData → Option Bytes
posted none = none
posted (some d) = some d.text

module _ (p : Parsers) where
  post_params-err :
      (media : Text × List (Text × Text)) (body : Bytes) (e : Error)
      → post_params p media body ≡ err e
      → (same media.0 (codes "multipart/form-data") ≡ true)
        × (find_param (codes "boundary") media.1 ≡ none)
  unfolding post_params
  post_params-err media body e h = (ground arith, ground arith)

  -- Recording a request either fails, for a body of a multipart form whose media type names no
  -- boundary, and leaves the entry as it was; or it sets the entry's request, with the size and the
  -- text of the body, or with the size -1 if there is none.
  update_entry_with_request_cases :
      (entry : HarEntry) (r : ClientRequest) (body : Option Bytes)
      → let out = update_entry_with_request p entry r body in
        let media = p.parse_media_type (get_header r.header (codes "Content-Type")) in
        ((h : HarRequest) × (out ≡ (record entry { request = some h }, none))
          × (body ≡ none → (h.body_size ≡ negsuc 0) × (h.post_data ≡ none))
          × ((b : Bytes)
              → body ≡ some b
              → (h.body_size ≡ pos (length b)) × (posted h.post_data ≡ some b)))
        ⊎ ((e : Error) × (out ≡ (entry, some e))
            × (same media.0 (codes "multipart/form-data") ≡ true)
            × (find_param (codes "boundary") media.1 ≡ none))
  unfolding update_entry_with_request
  update_entry_with_request_cases entry r none =
      inl (har_request p r none (negsuc 0), refl, (λ h. (refl, refl)), λ b h. absurd (cc))
  update_entry_with_request_cases entry r (some body) = go (request_params p r body) refl
    where
      go :
          (x : Result (List Param))
          → request_params p r body ≡ x
          → let out = update_entry_with_request p entry r (some body) in
            let media = p.parse_media_type (get_header r.header (codes "Content-Type")) in
            ((h : HarRequest) × (out ≡ (record entry { request = some h }, none))
              × (some body ≡ none → (h.body_size ≡ negsuc 0) × (h.post_data ≡ none))
              × ((b : Bytes)
                  → some body ≡ some b
                  → (h.body_size ≡ pos (length b)) × (posted h.post_data ≡ some b)))
            ⊎ ((e : Error) × (out ≡ (entry, some e))
                × (same media.0 (codes "multipart/form-data") ≡ true)
                × (find_param (codes "boundary") media.1 ≡ none))
      go (ok params) h = inl (
        _,
        ap (with_params p entry r body) h,
        (λ k. absurd (cc)),
        λ b k. (ap (λ y. pos (length y)) (some-injective _ _ k), k),
      )
      go (err e) h =
          let (a, b) = post_params-err _ body e h in
          inr (e, ap (with_params p entry r body) h, a, b)
