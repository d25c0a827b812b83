-- ===== src/Launch/Guards.antt =====
-- The orders in which the calls of the set-up have to be made.
use httptap.Shared.{◌≡◌, Bool, true, false}
use httptap.System.{Trace}
use httptap.System.Guarded.{guarded}
use httptap.Launch.{
  LaunchCall, read_device, route_table, handle_tcp, create_nic, unshare_net, wait, new_tun,
  link_set_up, route_add, addr_add, set_gid, set_uid, start_command, Args, is_empty,
}

abbrev pub makes_namespace : LaunchCall → Bool
makes_namespace unshare_net = true
makes_namespace _ = false

-- The calls that would change the network of the host, were they made outside the namespace.
abbrev pub changes_network : LaunchCall → Bool
changes_network (new_tun name) = true
changes_network (link_set_up name) = true
changes_network (addr_add name net) = true
changes_network (route_add gateway) = true
changes_network _ = false

abbrev pub adds_route : LaunchCall → Bool
adds_route (route_add gateway) = true
adds_route _ = false

abbrev pub sets_gid : LaunchCall → Bool
sets_gid (set_gid id) = true
sets_gid _ = false

abbrev pub sets_uid : LaunchCall → Bool
sets_uid (set_uid id) = true
sets_uid _ = false

abbrev pub starts : LaunchCall → Bool
starts (start_command command environ) = true
starts _ = false

abbrev pub waits : LaunchCall → Bool
waits wait = true
waits _ = false

abbrev pub forwards_tcp : LaunchCall → Bool
forwards_tcp handle_tcp = true
forwards_tcp _ = false

abbrev pub makes_nic : LaunchCall → Bool
makes_nic create_nic = true
makes_nic _ = false

-- What lets the answers to the packets of the subprocess reach it, with either stack.
abbrev pub serves : LaunchCall → Bool
serves read_device = true
serves route_table = true
serves _ = false

-- The orders that a trace keeps: the network is changed only in a namespace of its own; the
-- subprocess is started only when the default route leads to the tunnel, and, if a user was asked
-- for, only after the switch to it, before which the group is switched; it is waited for once
-- started and served; and the interface of gvisor is created once it has the TCP forwarder.
pub record IsOrdered (args : Args) (new : Trace LaunchCall) : Type 0 where
  pub isolated : guarded makes_namespace changes_network false new ≡ true
  pub routed : guarded adds_route starts false new ≡ true
  pub group_first : guarded sets_gid sets_uid false new ≡ true
  pub as_asked : guarded sets_uid starts (is_empty args.user) new ≡ true
  pub started : guarded starts waits false new ≡ true
  pub forwarded : guarded forwards_tcp makes_nic false new ≡ true
  pub served : guarded serves waits false new ≡ true
