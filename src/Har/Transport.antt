-- ===== src/Har/Transport.antt =====
-- round_tripper.go of pkg/harlog: the round tripper that records. The round tripper below it and
-- the clock are parameters; a log line and the closing of a body are left out.
use httptap.Shared.{Option, none, some, List, [], ◌∷◌, ◌++◌, codes, pos, Error, Result, ok, err}
use httptap.Packet.{Bytes}
use httptap.Har.Types.{Time, HarEntry, HarContainer}
use httptap.Har.Timing.{Hook, new_timing_trace, on_hooks, update_entry_with_timings}
use httptap.Har.Update.{
  Parsers, Body, ClientRequest, ClientResponse, update_entry_with_request,
  update_entry_with_response,
}

-- What a round tripper does with a request: what it leaves of its body, which it reads, the hooks
-- of its trace that it runs, the response and the error.
abbrev pub RoundTripper : Type 0
RoundTripper =
    ClientRequest → Option Body × List (Hook × Time) × Option ClientResponse × Option Error

pub record Transport : Type 0 where
  pub transport : Option RoundTripper
  pub unusual_error : Option (Error → Option Error)
  pub har : Option HarContainer

abbrev pub empty_har : HarContainer
empty_har = record {
  log = record {
    version = codes "1.2";
    creator = some record {
      name = codes "github.com/vvakame/go-harlog";
      version = codes "0.0.1";
      comment = [];
    };
    browser = none;
    pages = [];
    entries = [];
    comment = [];
  };
}

-- What `init` leaves in the field `har`.
unfoldable pub init_har : Option HarContainer → HarContainer
init_har none = empty_har
init_har (some h) = h

-- `&Entry{}`
abbrev pub zero_entry : HarEntry
zero_entry = record {
  pageref = [];
  started_date_time = 0;
  time = pos 0;
  request = none;
  response = none;
  cache = none;
  timings = none;
  server_ip_address = [];
  connection = [];
  comment = [];
}

unfoldable pub append_entry : HarContainer → HarEntry → HarContainer
append_entry h e = record h { log = record h.log { entries = h.log.entries ++ e ∷ [] } }

-- io.ReadAll.
abbrev pub read_all : Body → Result Bytes
read_all b = elim b.fails [ none ↦ ok b.bytes | some e ↦ err e ]

abbrev pub as_some : Result Bytes → Result (Option Bytes)
as_some (ok b) = ok (some b)
as_some (err e) = err e

abbrev pub read_source : Option Body → Result (Option Bytes)
read_source none = ok none
read_source (some b) = as_some (read_all b)

-- A body that has been read up to its error; bytes.NewBuffer(body), of nil or of bytes.
abbrev pub drained : Body → Body
drained b = record b { bytes = [] }

abbrev pub new_buffer : Option Bytes → Body
new_buffer none = record { bytes = []; fails = none }
new_buffer (some b) = record { bytes = b; fails = none }

abbrev pub source : ClientRequest → Option (Result (Option Body)) → Result (Option Body)
source r none = ok r.body
source r (some got) = got

-- The request after its own body, where that was the source, has been read in vain.
abbrev pub after_failed_read :
    ClientRequest → Option (Result (Option Body)) → Option Body → ClientRequest
after_failed_read r none (some b) = record r { body = some (drained b) }
after_failed_read r get src = r

module _ (p : Parsers) where
  abbrev pub pre_body :
      ClientRequest
      → HarEntry
      → Option Body
      → Result (Option Bytes)
      → ClientRequest × HarEntry × Option Error
  pre_body r entry src (err e) = (after_failed_read r r.get_body src, entry, some e)
  pre_body r entry src (ok body) =
      let r' = record r { body = some (new_buffer body) } in
      let (entry', e) = update_entry_with_request p entry r' body in (r', entry', e)

  abbrev pub pre_source :
      ClientRequest → HarEntry → Result (Option Body) → ClientRequest × HarEntry × Option Error
  pre_source r entry (err e) = (r, entry, some e)
  pre_source r entry (ok src) = pre_body r entry src (read_source src)

  unfoldable pub pre_round_trip : ClientRequest → HarEntry → ClientRequest × HarEntry × Option Error
  pre_round_trip r entry = pre_source r entry (source r r.get_body)

  abbrev pub post_read :
      ClientResponse → HarEntry → Result Bytes → ClientResponse × HarEntry × Option Error
  post_read resp entry (err e) = (record resp { body = drained resp.body }, entry, some e)
  post_read resp entry (ok body) =
      let resp' = record resp { body = new_buffer (some body) } in
      (resp', update_entry_with_response p entry resp' body, none)

  unfoldable pub post_round_trip :
      ClientResponse → HarEntry → ClientResponse × HarEntry × Option Error
  post_round_trip resp entry = post_read resp entry (read_all resp.body)

  -- `if resp != nil { err = h.postRoundTrip(resp, entry) }`
  abbrev pub post_if_some :
      Option ClientResponse → HarEntry → Option ClientResponse × HarEntry × Option Error
  post_if_some none entry = (none, entry, none)
  post_if_some (some resp) entry =
      let (resp', entry', e) = post_round_trip resp entry in (some resp', entry', e)

-- What UnusualError makes of an error; without it, the error is logged and forgotten.
abbrev pub unusual : Option (Error → Option Error) → Option Error → Option Error
unusual hook none = none
unusual none (some e) = none
unusual (some f) (some e) = f e

-- What RoundTrip leaves behind: the log, the caller's request, and the two results.
pub record RoundTripped : Type 0 where
  pub har : HarContainer
  pub request : ClientRequest
  pub response : Option ClientResponse
  pub failure : Option Error

abbrev pub base : Transport → RoundTripper → RoundTripper
base t default = elim t.transport [ none ↦ default | some b ↦ b ]

module _ (p : Parsers) (default : RoundTripper) (start end' : Time) (t : Transport) where
  -- The end of the call, given what UnusualError has made of the error.
  abbrev pub finish_round_trip :
      ClientRequest → Option ClientResponse → HarEntry → Option Error → Option Error → RoundTripped
  finish_round_trip r resp entry real_err (some x) = record {
    har = append_entry (init_har t.har) entry;
    request = r;
    response = none;
    failure = some x;
  }
  finish_round_trip r resp entry real_err none = record {
    har = append_entry (init_har t.har) (record entry {
      cache = some record { before_request = none; after_request = none; comment = [] };
    });
    request = r;
    response = resp;
    failure = real_err;
  }

  abbrev pub call_base :
      ClientRequest
      → HarEntry
      → Option Body × List (Hook × Time) × Option ClientResponse × Option Error
      → RoundTripped
  call_base r entry (left, hooks, resp, real_err) =
      let (resp', entry', e) = post_if_some p resp entry in
      let timings = record (on_hooks hooks (new_timing_trace start)) { end_at = end' } in
      finish_round_trip (record r { body = left }) resp' (update_entry_with_timings entry' timings)
        real_err (unusual t.unusual_error e)

  abbrev pub after_pre : ClientRequest → HarEntry → Option Error → RoundTripped
  after_pre r entry (some x) = record {
    har = append_entry (init_har t.har) entry;
    request = r;
    response = none;
    failure = some x;
  }
  after_pre r entry none = call_base r entry (base t default r)

  unfoldable pub round_trip : ClientRequest → RoundTripped
  round_trip r =
      let (r', entry, e) = pre_round_trip p r zero_entry in
      after_pre r' entry (unusual t.unusual_error e)
