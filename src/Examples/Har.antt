-- ===== src/Examples/Har.antt =====
-- The theorems on pkg/harlog, for a POST whose response is a text.
use httptap.Shared.{
  ℕ, ◌+◌, ◌≡◌, refl, inr, Option, List, map, none, some, [], ◌∷◌, codes, pos, minus, arith, Error,
  eof, err, ok,
}
use httptap.Har.Types.{Timings}
use httptap.Har.Timing.{
  TimingTrace, new_timing_trace, get_conn, got_conn, update_entry_with_timings, timings_add_up,
}
use httptap.Har.Update.{Parsers, Body, ClientRequest, ClientResponse}
use httptap.Har.Transport.{RoundTripper, Transport, zero_entry, round_trip}
use httptap.Har.Recorded.{round_trip_transparent}
use httptap.Har.Types.{HarContainer}
use httptap.System.{Os}
use httptap.Har.Dump.{DumpCall, create_dump, encode_dump, close_dump, Timed, har_logger, dump_har}
use httptap.Har.Dump.Complete.{entry_for, dump_har_complete}

abbrev trace : TimingTrace
trace = record (new_timing_trace 10) {
  conn_start = 12;
  conn_obtained = 15;
  write_request = 19;
  first_response_byte = 24;
  end_at = 30;
}

timings_add_up_example :
    (x : Timings) × (connect send wait receive before : ℕ) × ((update_entry_with_timings zero_entry
        trace).timings
      ≡ some x)
    × ((update_entry_with_timings zero_entry trace).time
        ≡ pos (before + connect + send + wait + receive))
    × (x.connect ≡ pos connect)
    × (x.send ≡ pos send)
    × (x.wait ≡ pos wait)
    × (x.receive ≡ pos receive)
    × (x.blocked ≡ minus before)
timings_add_up_example =
    timings_add_up zero_entry trace (omega arith) (omega arith) (omega arith) (omega arith)
      (omega arith) (omega arith) (omega arith)

abbrev parsers : Parsers
parsers = record {
  parse_media_type = λ t. (t, []);
  parse_query = λ b. err eof;
  read_form = λ boundary b. err eof;
  base64 = λ b. b;
}

abbrev body : Body
body = record { bytes = codes "data"; fails = none }

abbrev request : ClientRequest
request = record {
  method = codes "POST";
  url = codes "http://a.b/";
  proto = codes "HTTP/1.1";
  header = [];
  cookies = [];
  query = [];
  body = some body;
  get_body = some (ok (some body));
}

abbrev response : ClientResponse
response = record {
  status_code = 200;
  proto = codes "HTTP/1.1";
  header = (codes "Content-Type", codes "text/plain" ∷ []) ∷ [];
  cookies = [];
  content_length = pos 4;
  body = body;
}

abbrev network : RoundTripper
network r = (
  some (record { bytes = []; fails = none }),
  (get_conn, 12) ∷ (got_conn, 15) ∷ [],
  some response,
  none,
)

abbrev transport : Transport
transport = record { transport = none; unusual_error = none; har = none }

round_trip_transparent_example :
    ((round_trip parsers network 10 30 transport request).request
      ≡ record request { body = some (record { bytes = []; fails = none }) })
    × ((round_trip parsers network 10 30 transport request).response ≡ some response)
    × ((round_trip parsers network 10 30 transport request).failure ≡ none)
round_trip_transparent_example =
    round_trip_transparent parsers network 10 30 transport request body
      (some (record { bytes = []; fails = none })) ((get_conn, 12) ∷ (got_conn, 15) ∷ []) response
      none (λ x. refl) (inr refl) refl refl refl refl

abbrev one_call : List Timed
one_call = record { request = request; start = 10; end' = 30 } ∷ []

-- A disk on which the file cannot be created.
abbrev no_disk : Os DumpCall
no_disk tr c = some eof

dump_har_complete_example :
    (log : HarContainer) × (created written closed : Option Error) × (dump_har parsers network
        no_disk
        (codes "out.har")
        network
        one_call
        []
      ≡ (create_dump (codes "out.har"), created)
        ∷ (encode_dump log, written)
        ∷ (close_dump, closed)
        ∷ [])
    × (log.log.entries ≡ map (entry_for parsers network (har_logger network)) one_call)
dump_har_complete_example =
    dump_har_complete parsers network no_disk (codes "out.har") network one_call [] (λ e. cc)
