-- ===== src/Examples/Http.antt =====
-- The theorems on http.go, for a codec that marks a compressed body by a leading 1.
use httptap.Shared.{
  ℕ, suc, ◌≢◌, ◌↔◌, ◌⊎◌, length, ◌≤◌, ◌+◌, ◌≡◌, ◌++◌, map, true, make_chan, arith, refl, ap, false,
  none, some, List, [], ◌∷◌, Text, codes, eof, Error, Result, ok, err,
}
use httptap.Packet.{Bytes}
use httptap.Http.{
  Listener, HttpCall, free, sending, HttpLog, new_log, listen_http, notify_http, send_next, receive,
  listener_at,
}
use httptap.Http.Web.Served.{WebReach, opened, after, notifies, sends, serves}
use httptap.Http.Web.Delivered.{nulls, client_reads_calls}
use httptap.Http.Web.{call_ready, open_client, Client, serve_client}
use httptap.Http.Web.Abandoned.{Unattended, start, notify as notify_gone, gone_client_limits}
use httptap.Http.Listeners.{Reach, here, next, notify, send, due}
use httptap.Http.Bodies.{drain}
use httptap.Http.Content.{Gzip, IsGzip, to_lower, decode_content, encode}
use httptap.Http.Content.RoundTrip.{decode-encode}
use httptap.Http.Proxy.{Request, Response, World, absolute, dial_to, make_call, proxy_http_scheme}
use httptap.Http.Proxy.Answers.{proxy_answers}
use httptap.Http.Terminal.{print_calls}
use httptap.Http.Terminal.Printed.{colored_of, summary, terminal_prints_all}
use httptap.Http.Web.Events.{event_stream, read_events}
use httptap.Examples.Data.{server}

abbrev open_reader : Bytes → Result Bytes
open_reader [] = err eof
open_reader (c ∷ b) = ok b

abbrev marking : Gzip
marking = record {
  Reader = Bytes;
  from_buffer = λ b. b;
  new_reader = open_reader;
  read_all = λ b. ok b;
  unread = λ b. b;
  unread_failed = λ b. b;
  unread_all = λ b. [];
}

abbrev mark : Bytes → Bytes
mark b = 1 ∷ b

abbrev result_or_nil : Result Bytes → Bytes
result_or_nil (ok b) = b
result_or_nil (err e) = []

marking-IsGzip : IsGzip marking mark
marking-IsGzip = record {
  read_buffer = λ b. refl;
  read_compressed = λ r b h. (b, ap open_reader (ap result_or_nil h), refl);
}

abbrev gzipped : List Text
gzipped = codes "gzip" ∷ []

abbrev request : Request
request = record {
  method = codes "GET";
  url = record { scheme = []; host = codes "a.b"; path = codes "/" };
  host = codes "a.b";
  header = [];
  body = (codes "q", some eof) ∷ [];
}

abbrev response : Response
response = record {
  proto = codes "HTTP/2.0";
  proto_major = 2;
  proto_minor = 0;
  status = codes "OK";
  status_code = 200;
  header = (codes "Content-Encoding", gzipped) ∷ [];
  content_length = none;
  body = (1 ∷ [], none) ∷ (codes "hello", some eof) ∷ [];
}

abbrev world : World
world = record {
  gzip = marking;
  url_string = λ u. u.host;
  error_text = λ e. codes "failed";
  round_trip = λ req dial. (req.body, ok response);
  write_response = λ resp. (resp.body, none);
  conn_reads = (codes "GET", none) ∷ [];
  conn_writes = (12, none) ∷ [];
}

decode-encode_example :
    decode_content marking
      (encode mark (codes "GZIP" ∷ codes "gzip" ∷ []) (codes "hello"))
      (codes "GZIP" ∷ codes "gzip" ∷ [])
    ≡ ok (codes "hello")
unfolding to_lower
decode-encode_example =
    decode-encode marking mark marking-IsGzip (codes "GZIP" ∷ codes "gzip" ∷ []) (codes "hello")
      (refl, (refl, tt))

proxy_answers_example :
    let req = absolute (codes "http") server request in
    let result = (world.round_trip req (dial_to req.url.host)).1 in
    let out = proxy_http_scheme world (codes "http") server (ok request) in
    (resp : Response) × (out.answered ≡ some (resp, (world.write_response resp).1))
    × (resp.proto ≡ codes "HTTP/1.1")
    × (resp.proto_major ≡ 1)
    × (resp.proto_minor ≡ 1)
    × ((r : Response) → result ≡ ok r → (resp.status_code ≡ r.status_code) × (resp.body ≡ r.body))
    × ((e : Error)
        → result ≡ err e
        → (resp.status_code ≡ 502) × (drain resp.body ≡ world.error_text e))
    × ((out.recorded ≢ none) ↔ ((world.write_response resp).1 ≡ none))
proxy_answers_example = proxy_answers world (codes "http") server request

abbrev call : HttpCall
call = make_call world request response (codes "q") (codes "hello")

abbrev listening : HttpLog
listening = (listen_http new_log).0

-- The log after one listener has been told of one call, which it has not received yet.
abbrev told : HttpLog
told = record {
  listeners =
      record {
        chan = record { items = call ∷ []; size = 128; closed = false };
        history = [];
        received = [];
      }
      ∷ [];
  calls = call ∷ [];
  holder = sending call 1;
}

to_told : Reach listening told
unfolding listen_http notify_http send_next
to_told = next (next here (notify call refl refl)) (send refl)

-- A listener whose channel is full with one call.
abbrev full_listener : Listener
full_listener = record {
  chan = record (make_chan 1) { items = call ∷ [] };
  history = [];
  received = [];
}

abbrev client : Client
client = record { listener = 0; sent = []; gone = false }

abbrev before_leaving : HttpLog
before_leaving = record { listeners = full_listener ∷ []; calls = call ∷ []; holder = free }

-- One more call is recorded after the client has left, and cannot be sent.
abbrev after_leaving : HttpLog
after_leaving = record before_leaving { calls = call ∷ call ∷ []; holder = sending call 0 }

to_full : Unattended 0 before_leaving after_leaving 1
unfolding notify_http
to_full = notify_gone call start refl

gone_client_limits_example : 1 + length full_listener.chan.items ≤ suc full_listener.chan.size
unfolding serve_client
gone_client_limits_example =
    gone_client_limits before_leaving after_leaving client full_listener 1 refl (omega arith)
      to_full

-- The terminal has printed nothing of the one call that is recorded.
terminal_prints_all_example :
    (l : Listener) × (listener_at 0 told.listeners ≡ some l)
    × (colored_of (print_calls true false l.received) ++ summary (l.chan.items ++ due told.holder 0)
        ≡ summary told.calls)
terminal_prints_all_example = terminal_prints_all true false to_told

abbrev json : HttpCall → Text
json c = codes "{}"

-- A client of the web interface that comes first, and is sent the one call.
abbrev web_client : Client
web_client = record { listener = 0; sent = []; gone = false }

sent_one : WebReach (open_client new_log) (serve_client call_ready (told, web_client))
unfolding open_client listen_http notify_http send_next serve_client receive
sent_one =
    after (after (after opened (notifies call refl refl)) (sends refl refl))
      (serves call_ready refl)

client_reads_calls_example :
    let (t, v) = serve_client call_ready (told, web_client) in
    (l : Listener) × (read : List HttpCall) × (k : ℕ) × (listener_at v.listener t.listeners
      ≡ some l)
    × (read_events (event_stream json v.sent) ≡ map json read ++ nulls k)
    × (t.calls ≡ new_log.calls ++ (read ++ (l.chan.items ++ due t.holder v.listener)))
    × ((k ≡ 0) ⊎ ((l.chan.items ≡ []) × (l.chan.closed ≡ true)))
client_reads_calls_example =
    client_reads_calls new_log here refl json (λ c. (refl, (refl, tt))) sent_one
