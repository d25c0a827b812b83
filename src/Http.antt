-- ===== src/Http.antt =====
-- http.go: the calls that are recorded and shown, and their listeners. The children have the bodies,
-- the content encodings and the proxying of one request.
pub mod Positions
pub mod Listeners
pub mod Bodies
pub mod Content
pub mod Proxy
pub mod Web
pub mod Terminal
use httptap.Shared.{
  ℕ, zero, suc, ◌==◌, Bool, true, false, ◌||◌, ◌&&◌, not, Option, none, some, List, [], ◌∷◌, ◌++◌,
  Text, same, length, if◌then◌else◌, Chan, make_chan, room, ltb,
}
use httptap.Packet.{Bytes}

-- http.Header: the values of each key.
abbrev pub Header : Type 0
Header = List (Text × List Text)

abbrev pub header_values : Text → Header → List Text
header_values key [] = []
header_values key ((k, vs) ∷ h) = if same k key then vs else header_values key h

pub record HttpRequest : Type 0 where
  pub method : Text
  pub url : Text
  pub host : Text
  pub header : Header
  pub body : Bytes

pub record HttpResponse : Type 0 where
  pub status_code : ℕ
  pub status : Text
  pub header : Header
  pub body : Bytes

pub record HttpCall : Type 0 where
  pub request : HttpRequest
  pub response : HttpResponse
  pub total_bytes : ℕ  -- int64

-- A listener: its channel, what listenHTTP returned beside it, and what its owner has received.
pub record Listener : Type 0 where
  pub chan : Chan HttpCall
  pub history : List HttpCall
  pub received : List HttpCall

-- Who holds httpMu: nobody, or notifyHTTP, whose loop has come to the listener `i`.
pub data Holder : Type 0 where
  free : Holder
  sending : HttpCall → ℕ → Holder

-- The variables httpListeners, httpCalls and httpMu. listenHTTP and finishHTTP hold the mutex for
-- one step, in which nothing waits; notifyHTTP holds it for its whole loop.
pub record HttpLog : Type 0 where
  pub listeners : List Listener
  pub calls : List HttpCall
  pub holder : Holder

abbrev pub new_log : HttpLog
new_log = record { listeners = []; calls = []; holder = free }

unfoldable pub listen_http : HttpLog → HttpLog × List HttpCall
listen_http s = (
  record s {
    listeners =
        s.listeners ++ record { chan = make_chan 128; history = s.calls; received = [] } ∷ [];
  },
  s.calls,
)

abbrev pub listener_at : ℕ → List Listener → Option Listener
listener_at i [] = none
listener_at zero (l ∷ ls) = some l
listener_at (suc i) (l ∷ ls) = listener_at i ls

abbrev pub change_at : ℕ → (Listener → Listener) → List Listener → List Listener
change_at i f [] = []
change_at zero f (l ∷ ls) = f l ∷ ls
change_at (suc i) f (l ∷ ls) = l ∷ change_at i f ls

-- How a step that sends on a channel, or closes channels, ends. A send on a full channel waits until
-- its owner receives; a send on a closed channel and a second close panic.
pub data Ending (A : Type 0) : Type 0 where
  done : A → Ending A
  waits : Ending A
  panics : Ending A

-- notifyHTTP up to its loop: the call is recorded before any listener is told.
unfoldable pub notify_http : HttpCall → HttpLog → HttpLog
notify_http call s = record s { calls = s.calls ++ call ∷ []; holder = sending call 0 }

abbrev pub pushed : HttpCall → Listener → Listener
pushed call l = record l { chan = record l.chan { items = l.chan.items ++ call ∷ [] } }

-- The listener that the loop has come to is sent the call; behind the last one, the mutex is
-- released.
abbrev pub sent_to : HttpLog → HttpCall → ℕ → Option Listener → Ending HttpLog
sent_to s call i none = done (record s { holder = free })
sent_to s call i (some l) =
    if l.chan.closed
    then panics
    else if room l.chan
    then done (record s {
      listeners = change_at i (pushed call) s.listeners;
      holder = sending call (suc i);
    })
    else waits

-- One round of `for _, l := range httpListeners { l <- call }`.
unfoldable pub send_next : HttpLog → Ending HttpLog
send_next s = elim s.holder [
  | free ↦ done s
  | sending call i ↦ sent_to s call i (listener_at i s.listeners)
]

-- `for _, l := range httpListeners { close(l) }`.
unfoldable pub close_all : List Listener → Ending (List Listener)
close_all [] = done []
close_all (l ∷ ls) =
    let rest = close_all ls in
    if l.chan.closed then panics else (elim rest [
      | done ls' ↦ done (record l { chan = record l.chan { closed = true } } ∷ ls')
      | waits ↦ waits
      | panics ↦ panics
    ])

unfoldable pub finish_http : HttpLog → Ending HttpLog
finish_http s = elim (close_all s.listeners) [
  | done ls ↦ done (record s { listeners = ls })
  | waits ↦ waits
  | panics ↦ panics
]

-- The owner of listener `i` receives what is queued first, if anything is.
abbrev pub take_one : Listener → List HttpCall → Listener
take_one l [] = l
take_one l (c ∷ cs) = record l {
  chan = record l.chan { items = cs };
  received = l.received ++ c ∷ [];
}

unfoldable pub receive : ℕ → List Listener → List Listener
receive i ls = change_at i (λ l. take_one l l.chan.items) ls
