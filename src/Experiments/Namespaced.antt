-- ===== src/Experiments/Namespaced.antt =====
-- What experiments/gvisor-intercept and experiments/tun2socks have in common: the start in a user
-- namespace, the network of the subprocess, the end of the subprocess, and endpointWriter, which
-- experiments/gvisor-echo has too. What answers a call is a parameter.
use httptap.Shared.{
  ℕ, ◌==◌, ◌≡◌, refl, ◌↔◌, Bool, not, ◌&&◌, if◌then◌else◌, Option, none, some, List, Text, codes,
  same, length, Error, error, wrap, arith,
}
use httptap.Packet.{Bytes}
use httptap.System.{M, Os, call, ◌>>◌}
use httptap.Launch.Reexec.{Process, Cmd, second_process, command_or_shell}

pub data NetCall : Type 0 where
  unshare_net promiscuous_mode spoofing create_nic wait : NetCall
  new_stack handle_tcp route_table : NetCall
  new_tun link_by_name link_set_up parse_net parse_gateway parse_mac get_mtu : Text → NetCall
  addr_add route_add : Text → Text → NetCall
  new_link open_link : Text → NetCall
  start_command : List Text → List Text → NetCall

-- The arguments that both programs read.
pub record NetArgs : Type 0 where
  pub no_new_user_namespace : Bool
  pub tun : Text
  pub link : Text
  pub route : Text
  pub gateway : Text
  pub mac : Text
  pub command : List Text

-- The command that is run instead, unless the process is the second one or is to stay.
unfoldable pub re_executed : Process → NetArgs → Option Cmd
unfolding second_process
re_executed p args =
    if not (same p.name (codes "/proc/self/exe")) && not args.no_new_user_namespace
    then some (second_process p)
    else none

module _ (os : Os NetCall) where
  unfoldable pub network : NetArgs → M NetCall (Unit {0})
  network args = do
    call os (wrap "error creating network namespace") unshare_net
    call os (wrap "error creating tun device") (new_tun args.tun)
    call os (wrap "error finding link for new tun device") (link_by_name args.tun)
    call os (wrap "error bringing up link") (link_set_up args.tun)
    call os (wrap "error parsing subnet") (parse_net args.link)
    call os (wrap "error assign address to tun device") (addr_add args.tun args.link)
    call os (wrap "error parsing global subnet") (parse_net args.route)
    call os (λ e. error "error parsing gateway") (parse_gateway args.gateway)
    call os (wrap "error creating default route") (route_add args.route args.gateway)

  unfoldable pub start : NetArgs → List Text → M NetCall (Unit {0})
  start args env =
      call os (wrap "error starting subprocess") (start_command (command_or_shell args.command) env)

  unfoldable pub wait_command : M NetCall (Unit {0})
  wait_command = call os (wrap "error running subprocess") wait

-- The error of endpointWriter.Write: that of the endpoint, or io.ErrShortWrite.
pub data WriteError : Type 0 where
  tcpip_error : Error → WriteError
  short_write : WriteError

-- endpointWriter.Write, where the endpoint answers by a count and an error.
abbrev write_answered : Bytes → ℕ × Option Error → ℕ × Option WriteError
write_answered p (n, some e) = (n, some (tcpip_error e))
write_answered p (n, none) = (n, if n == length p then none else some short_write)

unfoldable endpoint_write : (Bytes → ℕ × Option Error) → Bytes → ℕ × Option WriteError
endpoint_write ep p = write_answered p (ep p)

-- Write of endpointWriter keeps the contract of io.Writer, whatever the endpoint does: it reports no
-- error exactly if the endpoint has reported none and has taken all bytes, and its count is that of
-- the endpoint.
endpoint_write_reports :
    (ep : Bytes → ℕ × Option Error) (p : Bytes)
    → ((endpoint_write ep p).0 ≡ (ep p).0)
      × (((endpoint_write ep p).1 ≡ none) ↔ (((ep p).1 ≡ none) × ((ep p).0 ≡ length p)))
unfolding endpoint_write
endpoint_write_reports ep p = cases (ep p)
  where
    cases :
        (r : ℕ × Option Error)
        → ((write_answered p r).0 ≡ r.0)
          × (((write_answered p r).1 ≡ none) ↔ ((r.1 ≡ none) × (r.0 ≡ length p)))
    cases (n, some e) = (refl, (λ h. absurd (ground arith), λ h. absurd (ground arith)))
    cases (n, none) = (refl, (λ h. (refl, ground arith), λ h. ground (arith, h.1)))
