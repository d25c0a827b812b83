-- ===== src/Experiments/Tun2socks.antt =====
-- experiments/tun2socks: a subprocess behind a link endpoint of tun2socks, whose proxy is not
-- written yet.
use httptap.Shared.{List, [], ◌∷◌, ◌++◌, Text, codes, error, wrap}
use httptap.System.{M, Os, call, ◌>>◌}
use httptap.Experiments.Namespaced.{
  NetCall, get_mtu, open_link, NetArgs, network, start, wait_command,
}

abbrev pub env : List Text → List Text
env environ = environ ++ codes "PS1=HTTPTAP # " ∷ []

module _ (os : Os NetCall) (args : NetArgs) where
  -- The link endpoint; the error of the second call is dropped.
  unfoldable pub open_endpoint : M NetCall (Unit {0})
  open_endpoint = do
    call os (wrap "error getting MTU") (get_mtu args.tun)
    call os (λ e. error "error creating ") (open_link args.tun)

  -- Main from the network namespace on.
  unfoldable pub tun2socks : List Text → M NetCall (Unit {0})
  unfolding network start open_endpoint wait_command
  tun2socks environ = do
    network os args
    open_endpoint
    start os args (env environ)
    wait_command os
