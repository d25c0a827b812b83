-- ===== src/Gvisor.antt =====
-- The gvisor side: tcpRequest of tcp.go, the forwarders of httptap.go, and tcpListener of mux.go.
-- What gvisor does is given to the functions: the end points of a request, the result of
-- CreateEndpoint, and the datagrams that are read.
pub mod Agreement
use httptap.Shared.{
  ℕ, Bool, true, false, Option, none, some, List, [], ◌∷◌, ◌++◌, Error, error, wrap, Result, ok,
  err,
}
use httptap.Addr.{v4, AddrPort}
use httptap.Packet.{Bytes}
use httptap.Mux.{
  Mux, RequestHandler, direct, accepting, queueing, Served, hand_request, serve, notify_tcp,
  notify_udp,
}
use httptap.Udp.{UdpPacket}

-- TransportEndpointID: local is what the subprocess was trying to reach, remote the subprocess.
pub record EndpointId : Type 0 where
  pub local : AddrPort
  pub remote : AddrPort

-- A request, with the calls of Complete that were made on it, each with its flag: whether a RST is
-- to be sent.
pub record TcpRequest : Type 0 where
  pub id : EndpointId
  pub completed : List Bool

abbrev pub new_request : EndpointId → TcpRequest
new_request id = record { id = id; completed = [] }

unfoldable pub remote_addr : TcpRequest → AddrPort
remote_addr r = r.id.remote

unfoldable pub local_addr : TcpRequest → AddrPort
local_addr r = r.id.local

-- Accept, where CreateEndpoint gives a connection or an error.
unfoldable pub accept : {Conn : Type 0} → Result Conn → TcpRequest → TcpRequest × Result Conn
accept (err e) r =
    (record r { completed = r.completed ++ true ∷ [] }, err (wrap "CreateEndpoint" e))
accept (ok conn) r = (record r { completed = r.completed ++ false ∷ [] }, ok conn)

unfoldable pub reject : TcpRequest → TcpRequest
reject r = record r { completed = r.completed ++ true ∷ [] }

-- What a handler that notifyTCP starts does first: only the closures accept the connection.
abbrev pub run_handler :
    {H Conn : Type 0} → RequestHandler H → Result Conn → TcpRequest → TcpRequest × Served H Conn
run_handler (direct h) created r = (r, hand_request h)
run_handler handler created r =
    let (r', accepted) = accept created r in (r', serve handler accepted)

-- A read of a UDP connection.
pub data UdpRead : Type 0 where
  datagram : Bytes → UdpRead
  closed : UdpRead
  failed : Error → UdpRead

abbrev pub start : {U : Type 0} → Option U → UdpPacket → List (U × UdpPacket) → List (U × UdpPacket)
start none p l = l
start (some h) p l = l ++ (h, p) ∷ []

module _ {H U : Type 0} where
  -- The handler of the TCP forwarder; how many requests it handles at once is limited by gvisor.
  unfoldable pub forward_tcp : EndpointId → Mux H U → Option (Mux H U × Option (RequestHandler H))
  unfolding local_addr
  forward_tcp id m = notify_tcp (local_addr (new_request id)) m

  -- The loop of the UDP forwarder over its reads, with the handlers that notifyUDP starts and their
  -- packets. Errors are skipped; a closed connection ends it.
  unfoldable pub read_udp :
      EndpointId
      → List UdpRead
      → Mux H U × List (U × UdpPacket)
      → Option (Mux H U × List (U × UdpPacket))
  read_udp id [] out = some out
  read_udp id (closed ∷ reads) out = some out
  read_udp id (failed e ∷ reads) out = read_udp id reads out
  read_udp id (datagram payload ∷ reads) (m, l) = elim (notify_udp id.local m) [
    | none ↦ none
    | some (m', h) ↦
        read_udp id reads
          (m', start h (record { src = id.remote; dst = id.local; payload = payload }) l)
  ]

  -- The UDP forwarder, where CreateEndpoint gives an error or none.
  unfoldable pub forward_udp :
      EndpointId
      → Option Error
      → List UdpRead
      → Mux H U × List (U × UdpPacket)
      → Option (Mux H U × List (U × UdpPacket))
  unfolding read_udp
  forward_udp id (some e) reads out = some out
  forward_udp id none reads out = read_udp id reads out

-- tcpListener, where the receive from its channel gives nil or a connection.
unfoldable pub listener_accept : {Conn : Type 0} → Option Conn → Result Conn
listener_accept none = err (error "net.ErrClosed")
listener_accept (some stream) = ok stream

abbrev pub listener_close : Result (Unit {0})
listener_close = ok tt

abbrev pub listener_addr : AddrPort
listener_addr = record { addr = v4 0 0 0 0; port = 0 }
