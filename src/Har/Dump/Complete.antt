-- ===== src/Har/Dump/Complete.antt =====
-- What the HAR file holds, and when it is written.
use httptap.Shared.{
  ◌≡◌, ◌≢◌, refl, ap, sym, ◌∙◌, Option, none, some, List, [], ◌∷◌, ◌++◌, map, append-nil,
  append_assoc, Text, Error,
}
use httptap.System.{Trace, Os}
use httptap.Har.Types.{Time, HarEntry, HarContainer}
use httptap.Har.Update.{Parsers, ClientRequest, ClientResponse}
use httptap.Har.Transport.{
  RoundTripper, Transport, init_har, zero_entry, append_entry, round_trip, finish_round_trip,
  after_pre, base,
}
use httptap.Har.Dump.{
  DumpCall, create_dump, encode_dump, close_dump, Timed, har_logger, serve_all, dump_har,
}

abbrev first_entry : List HarEntry → HarEntry
first_entry [] = zero_entry
first_entry (e ∷ es) = e

abbrev entry_in : HarContainer → HarEntry
entry_in h = first_entry h.log.entries

-- The same transport with nothing recorded.
abbrev pub fresh : Transport → Transport
fresh t = record t { har = none }

module _ (p : Parsers) (default : RoundTripper) where
  module _ (start end' : Time) (t : Transport) where
    finish_alike :
        (r : ClientRequest) (resp : Option ClientResponse) (entry : HarEntry)
        (real u : Option Error)
        → (finish_round_trip p default start end' t r resp entry real u).har
          ≡ append_entry
              (init_har t.har)
              (entry_in (finish_round_trip p default start end' (fresh t) r resp entry real u).har)
    unfolding append_entry init_har
    finish_alike r resp entry real none = refl
    finish_alike r resp entry real (some x) = refl

    after_pre_alike :
        (r : ClientRequest) (entry : HarEntry) (u : Option Error)
        → (after_pre p default start end' t r entry u).har
          ≡ append_entry
              (init_har t.har)
              (entry_in (after_pre p default start end' (fresh t) r entry u).har)
    unfolding append_entry init_har
    after_pre_alike r entry none = finish_alike (record r { body = (base t default r).0 }) _ _ _ _
    after_pre_alike r entry (some x) = refl

    -- The entry of a call: what it records where nothing else is recorded.
    abbrev entry_of : ClientRequest → HarEntry
    entry_of r = entry_in (round_trip p default start end' (fresh t) r).har

    round_trip-har :
        (r : ClientRequest)
        → (round_trip p default start end' t r).har ≡ append_entry (init_har t.har) (entry_of r)
    unfolding round_trip
    round_trip-har r = after_pre_alike _ _ _

  abbrev pub entry_for : Transport → Timed → HarEntry
  entry_for t r = entry_of r.start r.end' t r.request

  serve_all-entries :
      (t : Transport) (rs : List Timed)
      → (init_har (serve_all p default t rs).har).log.entries
        ≡ (init_har t.har).log.entries ++ map (entry_for t) rs
  unfolding serve_all append_entry init_har
  serve_all-entries t [] = sym (append-nil _)
  serve_all-entries t (r ∷ rs) =
      let out = (round_trip p default r.start r.end' t r.request).har in
      serve_all-entries (record t { har = some out }) rs
      ∙ ap (λ (h : HarContainer). h.log.entries ++ map (entry_for t) rs)
          (round_trip-har r.start r.end' t r.request)
      ∙ append_assoc (init_har t.har).log.entries (entry_for t r ∷ []) (map (entry_for t) rs)

  -- With `--dump-har` and a path, whatever the calls of the file system are answered: the file is
  -- created first, and at the end a log is written to it, and it is closed after that. The log has
  -- exactly one entry for each call that went through the round tripper, in the order in which
  -- they ended, and it is the entry that the call would have had if nothing else had been recorded.
  pub dump_har_complete :
      (os : Os DumpCall) (path : Text) (network : RoundTripper) (rs : List Timed)
      (tr : Trace DumpCall)
      → path ≢ []
      → (log : HarContainer) × (created written closed : Option Error) × (dump_har p default os path
            network rs tr
          ≡ tr
            ++ (create_dump path, created) ∷ (encode_dump log, written) ∷ (close_dump, closed) ∷ [])
        × (log.log.entries ≡ map (entry_for (har_logger network)) rs)
  unfolding dump_har init_har har_logger
  dump_har_complete os [] network rs tr h = absurd (h refl)
  dump_har_complete os (c ∷ path) network rs tr h = (
    init_har (serve_all p default (har_logger network) rs).har,
    _,
    _,
    _,
    append_assoc (tr ++ (create_dump (c ∷ path), os tr (create_dump (c ∷ path))) ∷ []) _ _
        ∙ append_assoc tr _ _,
    serve_all-entries (har_logger network) rs,
  )
