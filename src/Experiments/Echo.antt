-- ===== src/Experiments/Echo.antt =====
-- experiments/gvisor-echo: gvisor listens on a port of a TUN device and prints what is sent to it,
-- while a shell runs behind the device. The deferred calls of Main, which close what the end of the
-- process closes anyway, are left out; what answers a call is a parameter.
pub mod Loops
use httptap.Shared.{
  ℕ, Bool, true, false, if◌then◌else◌, Option, none, some, List, [], ◌∷◌, Text, codes, Error, error,
  wrap,
}
use httptap.Launch.Exit.{Ended, finished, exited, failed}
use httptap.System.{M, Os, call, done, return, ◌>>=◌, ◌>>◌}

pub data Proto : Type 0 where
  ipv4 ipv6 : Proto

pub data EchoCall : Type 0 where
  get_namespace new_namespace new_endpoint create_nic new_subnet new_stack route_table : EchoCall
  parse_mac parse_ip open_tun link_by_name link_set_up parse_net : Text → EchoCall
  addr_add route_add : Text → Text → EchoCall
  start_command : List Text → List Text → EchoCall
  get_mtu : Text → EchoCall
  new_link : Bool → Text → EchoCall
  add_protocol_address : Proto → Text → EchoCall
  bind : ℕ → EchoCall
  listen : ℕ → EchoCall

-- The arguments and the two flags.
pub record EchoArgs : Type 0 where
  pub tun : Text
  pub address : Text
  pub port : ℕ
  pub tap : Bool
  pub mac : Text

module _ (os : Os EchoCall) (to4 : Text → Bool) (args : EchoArgs) where
  -- The protocol of the address: an address that has been parsed has 16 bytes, if not 4.
  abbrev pub proto : Proto
  proto = if to4 args.address then ipv4 else ipv6

  -- log.Fatal, and a return of an error, by which main calls log.Fatal: both end the process. The
  -- texts of the former do not name the error.
  unfoldable parse_args : M EchoCall (Unit {0})
  parse_args = do
    call os (wrap "error getting initial network namespace") get_namespace
    call os (λ e. error "Bad MAC address") (parse_mac args.mac)
    call os (λ e. error "Bad IP address") (parse_ip args.address)

  unfoldable pub network : M EchoCall (Unit {0})
  network = do
    done new_stack
    call os (wrap "error creating network namespace") new_namespace
    call os (wrap "error creating tun device") (open_tun args.tun)
    call os (wrap "error finding link for new tun device") (link_by_name args.tun)
    call os (wrap "error bringing up link") (link_set_up args.tun)
    call os (wrap "error parsing subnet") (parse_net (codes "10.1.2.255/24"))
    call os (wrap "error assign address to tun device") (addr_add args.tun (codes "10.1.2.255/24"))
    call os (wrap "error parsing global subnet") (parse_net (codes "0.0.0.0/0"))
    call os (wrap "error creating default route") (route_add (codes "0.0.0.0/0") args.address)

  unfoldable start_shell : M EchoCall (Unit {0})
  start_shell =
      call os (wrap "error starting subprocess")
        (start_command (codes "/bin/sh" ∷ []) (codes "PS1=CONTAINER # " ∷ []))

  -- The gvisor stack; the error of NewEndpoint is dropped, since the text names another variable,
  -- which holds none.
  unfoldable pub make_stack : M EchoCall (Unit {0})
  make_stack = do
    call os (λ e. e) (get_mtu args.tun)
    call os (λ e. e) (new_link args.tap args.mac)
    call os (λ e. e) create_nic
    call os (wrap "AddProtocolAddress") (add_protocol_address proto args.address)
    call os (λ e. e) new_subnet
    done route_table
    call os (λ e. error "error creating a raw endpoint") new_endpoint
    call os (wrap "Bind failed: ") (bind args.port)
    call os (wrap "Listen failed: ") (listen 10)

  -- Main, up to the loop that accepts connections.
  unfoldable echo_main : M EchoCall (Unit {0})
  unfolding parse_args network start_shell make_stack
  echo_main = do parse_args; network; start_shell; make_stack

-- The goroutine that waits for the shell: the exit status of the process.
unfoldable shell_status : Ended → ℕ
shell_status finished = 0
shell_status (exited code) = code
shell_status (failed e) = 255
