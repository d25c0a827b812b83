-- ===== src/Har/Dump.antt =====
-- The HAR file of Main of httptap.go: it is created before any call is intercepted, each call goes
-- through the recording round tripper, and the log is written and the file closed by deferred
-- calls. What answers the calls of the file system is a parameter; Main only reports their errors.
pub mod Complete
use httptap.Shared.{Option, none, some, List, [], ◌∷◌, ◌++◌, Text, Error}
use httptap.System.{Trace, Os}
use httptap.Har.Types.{Time, HarContainer}
use httptap.Har.Update.{Parsers, ClientRequest, ClientResponse}
use httptap.Har.Transport.{RoundTripper, Transport, init_har, RoundTripped, round_trip}

pub data DumpCall : Type 0 where
  create_dump : Text → DumpCall
  encode_dump : HarContainer → DumpCall
  close_dump : DumpCall

-- `harlog.Transport{Transport: roundTripper, UnusualError: …}`.
unfoldable pub har_logger : RoundTripper → Transport
har_logger network = record {
  transport = some network;
  unusual_error = some (λ e. none);
  har = none;
}

-- A request with the times at which its call starts and ends.
pub record Timed : Type 0 where
  pub request : ClientRequest
  pub start : Time
  pub end' : Time

module _ (p : Parsers) (default : RoundTripper) where
  -- The calls that go through the round tripper, in the order in which they end.
  unfoldable pub serve_all : Transport → List Timed → Transport
  unfolding round_trip
  serve_all t [] = t
  serve_all t (r ∷ rs) =
      serve_all (record t { har = some (round_trip p default r.start r.end' t r.request).har }) rs

  abbrev made : Os DumpCall → DumpCall → Trace DumpCall → Trace DumpCall
  made os c tr = tr ++ (c, os tr c) ∷ []

  -- Main with `--dump-har path`, from the creation of the file to its end, where the requests are
  -- those that the handlers serve; without the option, the path is empty.
  unfoldable pub dump_har :
      Os DumpCall → Text → RoundTripper → List Timed → Trace DumpCall → Trace DumpCall
  unfolding har_logger serve_all
  dump_har os [] network rs tr = tr
  dump_har os (c ∷ path) network rs tr =
      let created = made os (create_dump (c ∷ path)) tr in
      let logger = serve_all (har_logger network) rs in
      made os close_dump (made os (encode_dump (init_har logger.har)) created)
