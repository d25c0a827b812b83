-- ===== src/App.antt =====
-- What Main of httptap.go sets up: the handlers that it registers with the multiplexer, and the
-- address that an intercepted connection is dialled at.
pub mod Routes
pub mod Redirect
pub mod Answered
use httptap.Shared.{
  ℕ, zero, suc, Bool, true, false, ◌==◌, ◌||◌, Option, none, some, List, [], ◌∷◌, ◌++◌, Text, codes,
  length, drop, if◌then◌else◌, Error, error, Result, ok, err, itoa, ◌-◌, same,
}
use httptap.Addr.{AddrPort, net_addr_string}
use httptap.Mux.{Mux, new_mux, has_prefix, handle_tcp, handle_udp}

-- specialHostName and specialHostIP of dns.go.
abbrev pub special_host_name : Text
special_host_name = codes "host.httptap.local"

abbrev pub special_host_ip : Text
special_host_ip = codes "169.254.77.65"

-- strings.Replace(s, old, new, 1): the leftmost occurrence is replaced.
unfoldable pub replace_first : Text → Text → Text → Text
unfolding has_prefix
replace_first [] old new = if has_prefix [] old then new else []
replace_first (c ∷ s) old new =
    let rest = replace_first s old new in
    if has_prefix (c ∷ s) old then new ++ drop (length old) (c ∷ s) else c ∷ rest

-- The two replacements that the dialer and the `*` handler make.
unfoldable pub redirect : Text → Text
redirect dst =
    replace_first (replace_first dst special_host_name (codes "127.0.0.1")) special_host_ip
      (codes "127.0.0.1")

-- DialContext: what is dialled for a request whose context holds `dial_to` under dialToContextKey.
unfoldable pub dial_context : Text → Option Text → Result Text
unfolding redirect
dial_context network none =
    if same network (codes "tcp")
    then err (error "context on proxied request was missing dialTo key")
    else err (error "network was requested of dialer pinned to tcp")
dial_context network (some dial_to) =
    if same network (codes "tcp")
    then ok (redirect dial_to)
    else err (error "network was requested of dialer pinned to tcp")

-- The handlers of Main: proxyHTTP, proxyHTTPS, and proxyTCP to the redirected local address.
pub data Service : Type 0 where
  proxy_http proxy_https proxy_tcp : Service

pub data UdpService : Type 0 where
  dns : UdpService

abbrev pub AppMux : Type 0
AppMux = Mux Service UdpService

-- `for _, port := range ports { mux.HandleTCP(fmt.Sprintf(":%d", port), …) }`.
unfoldable pub register_ports : Service → List ℕ → AppMux → Option AppMux
register_ports s [] m = some m
register_ports s (port ∷ ports) m = elim (handle_tcp (b':' ∷ itoa port) s m) [
  | none ↦ none
  | some (m', _) ↦ register_ports s ports m'
]

infixl 5 ◌>>=◌
abbrev ◌>>=◌ : {A B : Type 0} → Option A → (A → Option B) → Option B
o >>= f = elim o [ none ↦ none | some a ↦ f a ]

-- The registrations of Main, in their order.
unfoldable pub app_mux : List ℕ → List ℕ → Option AppMux
app_mux http_ports https_ports = do
  with_dns ← handle_udp (codes ":53") dns new_mux
  with_http ← register_ports proxy_http http_ports with_dns.0
  with_https ← register_ports proxy_https https_ports with_http
  with_rest ← handle_tcp (codes "*") proxy_tcp with_https
  some with_rest.0

-- The destination of proxyTCP for a connection to `local`.
unfoldable pub proxy_tcp_destination : AddrPort → Text
proxy_tcp_destination local = redirect (net_addr_string local)
