-- ===== src/Examples/Experiments.antt =====
-- The theorems on the experiments.
use httptap.Shared.{
  true, ◌↔◌, ◌⊎◌, ◌≤◌, ℕ, false, ◌≡◌, ◌++◌, ◌≢◌, refl, false, none, some, [], ◌∷◌, codes, length,
  error,
}
use httptap.System.{Trace, Os}
use httptap.Http.{done, panics}
use httptap.Dns.{handle_dns}
use httptap.Examples.Dns.{lib, ask}
use httptap.Dns.Codes.{type_a}
use httptap.Experiments.DnsProxy.{written, serve, handle_dns-serve}
use httptap.Experiments.GoProxy.Meta.{Meta, Writer, write_to, log_req}
use httptap.Experiments.GoProxy.Meta.Written.{
  pieces, dump_error, ended_by, write_pieces, write_to_lem,
}
use httptap.Experiments.GoProxy.Logger.{
  HttpLogger, new_logger, log_meta, close_channel, await_end, here, next, logs, log_of,
  close_completes, rounds,
}
use httptap.Experiments.GoProxy.Listener
use httptap.Experiments.GoProxy.Listener.{
  Server, new_server, close_conn, interrupt, log_call, logger_open, wait, stopped, serving,
  stop_is_graceful,
}
use httptap.Experiments.Namespaced.{NetCall, NetArgs, get_mtu}
use httptap.Experiments.Intercept.{intercept}
use httptap.Experiments.Tun2socks.{tun2socks}
use httptap.Experiments.Ordered.{
  IsOrdered, starts, receives, forwards_tcp, makes_nic, experiments_in_order,
}
use httptap.System.Guarded.{guarded}

handle_dns-serve_example :
    handle_dns lib (codes "query") ≡ written lib (serve lib (ask (codes "a.b.") type_a))
handle_dns-serve_example =
    handle_dns-serve lib (codes "query") (ask (codes "a.b.") type_a) refl refl

-- A disk that is full after two writes.
abbrev filling : Writer
filling [] b = (length b, none)
filling (x ∷ []) b = (length b, none)
filling _ b = (0, some (error "no space left on device"))

abbrev meta : Meta
meta =
    (log_req (λ a b. a ++ (codes "/" ++ b)) (codes "db")
      (some (record {
        dump = codes "GET / HTTP/1.1\r\n";
        dump_error = none;
        remote_addr = codes "::1";
      }))
      1 none (codes "12:00")).0

write_to_lem_example :
    write_to filling meta []
    ≡ ended_by (dump_error meta.err meta.req meta.resp) (write_pieces filling (pieces meta) 0 [])
write_to_lem_example = write_to_lem filling meta []

abbrev busy : HttpLogger
busy = record new_logger { handed = meta ∷ []; pending = some meta }

close_completes_example :
    (t u : HttpLogger) × (close_channel busy ≡ done t)
    × (n : ℕ) × (n ≤ 2)
    × (rounds filling n t ≡ done u)
    × (log_meta meta t ≡ panics)
    × (await_end u ≡ done u)
    × (u.file ≡ log_of filling (meta ∷ []) [])
unfolding log_meta
close_completes_example = close_completes filling meta (next here (logs meta refl)) refl

connected : Listener.Reach new_server (record new_server { counter = 1; conns = 1 })
unfolding Listener.accept
connected = Listener.next Listener.here (Listener.accepts Listener.connection refl)

-- One connection is open when the interrupt comes.
abbrev interrupted : Server
interrupted = record new_server { counter = 2; conns = 1; stage = Listener.counted }

stop_is_graceful_example :
    (close_conn interrupted ≢ panics)
    × (interrupt interrupted ≢ panics)
    × ((log_call interrupted ≡ panics)
        ↔ ((interrupted.conns ≢ 0) × (logger_open interrupted.stage ≡ false)))
    × ((t : Server)
        → wait interrupted ≡ done t
        → (interrupted.conns ≡ 0) × ((interrupted.stage ≡ stopped) ⊎ (interrupted.stage ≡ serving)))
unfolding interrupt
stop_is_graceful_example = stop_is_graceful (Listener.next connected (Listener.interrupts refl))

abbrev net_os : Os NetCall
net_os tr (get_mtu name) = some (error "no such device")
net_os tr _ = none

abbrev net_args : NetArgs
net_args = record {
  no_new_user_namespace = false;
  tun = codes "httptap";
  link = codes "10.1.1.100/24";
  route = codes "0.0.0.0/0";
  gateway = codes "10.1.1.1";
  mac = codes "aa:00:01:01:01:01";
  command = [];
}

experiments_in_order_example :
    ((new : Trace NetCall) × ((intercept net_os net_args [] []).0 ≡ new)
      × IsOrdered new starts receives
      × (guarded forwards_tcp makes_nic false new ≡ true))
    × ((new : Trace NetCall) × ((tun2socks net_os net_args [] []).0 ≡ new)
        × IsOrdered new receives starts)
experiments_in_order_example = experiments_in_order net_os net_args [] []
