-- ===== src/Experiments/Intercept.antt =====
-- experiments/gvisor-intercept: a subprocess whose TCP connections gvisor accepts, greets and
-- closes.
use httptap.Shared.{Option, none, some, List, [], ◌∷◌, ◌++◌, Text, codes, Error, wrap}
use httptap.System.{M, Os, call, done, ◌>>◌}
use httptap.Experiments.Namespaced.{
  NetCall, new_stack, handle_tcp, route_table, promiscuous_mode, spoofing, create_nic, parse_mac,
  get_mtu, new_link, NetArgs, network, start, wait_command,
}

abbrev pub env : List Text → List Text
env environ = environ ++ codes "HTTPTAP=1" ∷ codes "PS1=HTTPTAP # " ∷ []

-- What the TCP forwarder does with a request, whose endpoint can be created or not. The deferred
-- calls are in the order in which they run.
pub data ForwarderCall : Type 0 where
  create_endpoint write_greeting close_conn : ForwarderCall
  complete_reset complete : ForwarderCall

unfoldable forward : Option Error → List ForwarderCall
forward (some e) = create_endpoint ∷ complete_reset ∷ []
forward none = create_endpoint ∷ write_greeting ∷ close_conn ∷ complete ∷ []

module _ (os : Os NetCall) (args : NetArgs) where
  -- The gvisor stack, which is made after the subprocess has been started.
  unfoldable pub make_stack : M NetCall (Unit {0})
  make_stack = do
    done new_stack
    call os (wrap "error getting MTU") (get_mtu args.tun)
    call os (wrap "error parsing MAC address") (parse_mac args.mac)
    call os (wrap "error creating link from tun device file descriptor") (new_link args.tun)
    done handle_tcp
    call os (wrap "error creating NIC") create_nic
    call os (wrap "error setting promiscuous mod") promiscuous_mode
    call os (wrap "error setting promiscuous mod") spoofing
    done route_table

  -- Main from the network namespace on.
  unfoldable pub intercept : List Text → M NetCall (Unit {0})
  unfolding network start make_stack wait_command
  intercept environ = do network os args; start os args (env environ); make_stack; wait_command os
