-- ===== src/Http/Web.antt =====
-- The handler of /api/calls in Main of httptap.go: a client of the web interface gets the calls that
-- are recorded from then on, as long as it stays. Its listener stays after it.
pub mod Abandoned
pub mod Events
pub mod Served
pub mod Delivered
use httptap.Shared.{
  ℕ, zero, suc, Bool, true, false, Option, none, some, List, [], ◌∷◌, ◌++◌, length, if◌then◌else◌,
}
use httptap.Http.{HttpCall, Listener, HttpLog, listen_http, listener_at, receive}

-- A client: which listener is its own, what it has been sent, and whether it has left.
pub record Client : Type 0 where
  pub listener : ℕ
  pub sent : List (Option HttpCall)  -- nil is none
  pub gone : Bool

-- What the select of the loop finds: a call in the channel, or that the request is done.
pub data Ready : Type 0 where
  call_ready request_done : Ready

unfoldable pub open_client : HttpLog → HttpLog × Client
unfolding listen_http
open_client s =
    let (s', history) = listen_http s in
    (s', record { listener = length s.listeners; sent = []; gone = false })

-- What is received: the first call of the channel, or, of a closed and empty channel, nil.
abbrev pub got_from : List HttpCall → Bool → List (Option HttpCall)
got_from (c ∷ cs) closed = some c ∷ []
got_from [] true = none ∷ []
got_from [] false = []

abbrev pub got : Option Listener → List (Option HttpCall)
got none = []
got (some l) = got_from l.chan.items l.chan.closed

-- One round of the loop, which does not ask whether the channel is closed. Of an empty channel that
-- is open nothing is received: the select waits.
unfoldable pub serve_client : Ready → HttpLog × Client → HttpLog × Client
unfolding receive
serve_client request_done (s, v) = (s, record v { gone = true })
serve_client call_ready (s, v) = if v.gone then (s, v) else (
  record s { listeners = receive v.listener s.listeners },
  record v { sent = v.sent ++ got (listener_at v.listener s.listeners) },
)
