-- ===== src/Mux.antt =====
-- mux.go: handlers registered under patterns, and the dispatch of new connections and packets.
-- The handlers are values of the parameters `H` (TCP) and `U` (UDP); a registration of mux.go wraps
-- a handler into one of the closures of `RequestHandler`.
pub mod Matching
pub mod Locking
use httptap.Shared.{
  ℕ, zero, suc, ◌==◌, Bool, true, false, ◌&&◌, Option, none, some, List, [], ◌∷◌, ◌++◌, Text, codes,
  itoa, same, length, drop, leb, ◌-◌, if◌then◌else◌, Result, ok, err, Error,
}
use httptap.Addr.{AddrPort, net_addr_string}

-- strings.HasPrefix and strings.HasSuffix.
unfoldable pub has_prefix : Text → Text → Bool
has_prefix s [] = true
has_prefix [] (p ∷ ps) = false
has_prefix (c ∷ s) (p ∷ ps) = c == p && has_prefix s ps

unfoldable pub has_suffix : Text → Text → Bool
has_suffix s t = leb (length t) (length s) && same (drop (length s - length t) s) t

-- desenEşleşiyorMu, on the text of the address.
unfoldable pub pattern_matches : Text → AddrPort → Bool
unfolding has_prefix has_suffix
pattern_matches pat addr =
    if same pat (codes "*")
    then true
    else if has_prefix pat (codes ":") && has_suffix (net_addr_string addr) pat
    then true
    else false

-- The function that an entry calls with the request: the handler itself (HandleTCPRequest), the
-- closure of HandleTCP, or the closure of ListenTCP for a listener.
pub data RequestHandler (H : Type 0) : Type 0 where
  direct : H → RequestHandler H
  accepting : H → RequestHandler H
  queueing : ℕ → RequestHandler H

-- What such a function does with a request once it is run: it hands the request on, or it accepts
-- the connection and hands that to the handler or to the listener's queue, or it gives up.
pub data Served (H Conn : Type 0) : Type 0 where
  hand_request : H → Served H Conn
  hand_conn : H → Conn → Served H Conn
  enqueue : ℕ → Conn → Served H Conn
  give_up : Error → Served H Conn

unfoldable pub serve : {H Conn : Type 0} → RequestHandler H → Result Conn → Served H Conn
serve (direct h) accepted = hand_request h
serve (accepting h) (ok conn) = hand_conn h conn
serve (accepting h) (err e) = give_up e
serve (queueing l) (ok conn) = enqueue l conn
serve (queueing l) (err e) = give_up e

-- An entry of either table: a pattern and its handler.
pub record Entry (H : Type 0) : Type 0 where
  pub pat : Text
  pub handler : H

pub record Mux (H U : Type 0) : Type 0 where
  pub locked : Bool  -- the mutex
  pub tcp_handlers : List (Entry (RequestHandler H))
  pub udp_handlers : List (Entry U)

-- The zero value, `var mux mux`.
abbrev pub new_mux : {H U : Type 0} → Mux H U
new_mux = record { locked = false; tcp_handlers = []; udp_handlers = [] }

-- The loop of notifyTCP and of notifyUDP: the first entry whose pattern matches.
unfoldable pub first_match : {H : Type 0} → List (Entry H) → AddrPort → Option H
first_match [] addr = none
first_match (e ∷ es) addr =
    if pattern_matches e.pat addr then some e.handler else first_match es addr

module _ {H U : Type 0} where
  -- `none` is a lock that never comes: `sync.Mutex` is not reentrant, and a holder that waits for
  -- itself waits for ever. The body runs with the lock held and releases it at the end (`defer`).
  unfoldable pub with_lock :
      {A : Type 0} → Mux H U → (Mux H U → Option (Mux H U × A)) → Option (Mux H U × A)
  with_lock m body =
      let ran = body (record m { locked = true }) in
      if m.locked
      then none
      else elim ran [ none ↦ none | some (m', a) ↦ some (record m' { locked = false }, a) ]

  unfoldable pub handle_tcp_request :
      Text → RequestHandler H → Mux H U → Option (Mux H U × Unit {0})
  unfolding with_lock
  handle_tcp_request pat h m = with_lock m (λ m'.
      some (
        record m' { tcp_handlers = m'.tcp_handlers ++ record { pat = pat; handler = h } ∷ [] },
        tt,
      ))

  unfoldable pub handle_tcp : Text → H → Mux H U → Option (Mux H U × Unit {0})
  unfolding handle_tcp_request
  handle_tcp pat h m = handle_tcp_request pat (accepting h) m

  unfoldable pub handle_udp : Text → U → Mux H U → Option (Mux H U × Unit {0})
  unfolding with_lock
  handle_udp pat h m = with_lock m (λ m'.
      some (
        record m' { udp_handlers = m'.udp_handlers ++ record { pat = pat; handler = h } ∷ [] },
        tt,
      ))

  -- ListenTCP takes the lock and calls HandleTCPRequest, which takes it again.
  unfoldable pub listen_tcp : Text → ℕ → Mux H U → Option (Mux H U × Unit {0})
  unfolding with_lock handle_tcp_request
  listen_tcp pat listener m = with_lock m (handle_tcp_request pat (queueing listener))

  -- The handler that notifyTCP starts in a goroutine, if any.
  unfoldable pub notify_tcp : AddrPort → Mux H U → Option (Mux H U × Option (RequestHandler H))
  unfolding with_lock
  notify_tcp local m = with_lock m (λ m'. some (m', first_match m'.tcp_handlers local))

  unfoldable pub notify_udp : AddrPort → Mux H U → Option (Mux H U × Option U)
  unfolding with_lock
  notify_udp dst m = with_lock m (λ m'. some (m', first_match m'.udp_handlers dst))
