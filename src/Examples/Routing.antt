-- ===== src/Examples/Routing.antt =====
-- The theorems on addresses, mux.go, the registrations of Main, udp.go and proxy.go.
use httptap.Shared.{ℕ, ◌==◌, ◌≡◌, if◌then◌else◌, none, some, [], ◌∷◌, ◌++◌, codes, eof}
use httptap.Packet.{UdpHeader}
use httptap.Mux.{new_mux, accepting, listen_tcp, notify_tcp, notify_udp}
use httptap.Mux.Locking.{listen_tcp_deadlock}
use httptap.App.{AppMux, app_mux, dns}
use httptap.App.Routes.{service_of, app_mux_routes}
use httptap.Udp.{Responder, UdpStack, new_udp_stack, responder_for}
use httptap.Forward.{proxy_bytes}
use httptap.Forward.Copied.{chunks, end_of, good_reads, proxy_bytes_lem}
use httptap.Examples.Data.{server, ip_out, web_mux, link}

listen_tcp_deadlock_example : listen_tcp (codes ":80") 1 web_mux ≡ none
listen_tcp_deadlock_example = listen_tcp_deadlock web_mux (codes ":80") 1

app_mux_routes_example :
    (m : AppMux) × (app_mux (80 ∷ []) (443 ∷ []) ≡ some m)
    × (notify_tcp server m ≡ some (m, some (accepting (service_of (80 ∷ []) (443 ∷ []) 80))))
    × (notify_udp server m ≡ some (m, if 80 == 53 then some dns else none))
app_mux_routes_example = app_mux_routes (80 ∷ []) (443 ∷ []) server

abbrev udp_out : UdpHeader
udp_out = record { src_port = 40; dst_port = 53; payload = [] }

abbrev udp_stack : UdpStack ℕ ℕ
udp_stack =
    new_udp_stack (record new_mux { udp_handlers = record { pat = codes "*"; handler = 9 } ∷ [] })
      link

abbrev responder : Responder
responder = responder_for ip_out udp_out

proxy_bytes_lem_example :
    let out =
      proxy_bytes
        (λ k b. none)
        0
        (good_reads (codes "ab" ∷ codes "c" ∷ []) ++ (codes "lost", some eof) ∷ []) in
    (chunks out.0 ≡ codes "ab" ∷ codes "c" ∷ []) × (out.1 ≡ end_of eof)
proxy_bytes_lem_example =
    proxy_bytes_lem (λ k b. none) 0 (codes "ab" ∷ codes "c" ∷ []) (codes "lost") eof []
