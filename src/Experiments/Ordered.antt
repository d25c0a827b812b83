-- ===== src/Experiments/Ordered.antt =====
-- The order in which experiments/gvisor-intercept and experiments/tun2socks make their calls.
use httptap.Shared.{◌≡◌, refl, Bool, true, false, List, [], ◌∷◌, ◌++◌, Text, error, wrap}
use httptap.System.{Trace, Os, M}
use httptap.System.Follows.{succeeded, Follows, Planned, ◌then◌, planned_call, planned_done}
use httptap.System.Guarded.{guarded, Follows-guarded}
use httptap.Launch.Reexec.{command_or_shell}
use httptap.Experiments.Namespaced.{
  NetCall, new_stack, handle_tcp, route_table, unshare_net, promiscuous_mode, spoofing, create_nic,
  wait, new_tun, link_by_name, link_set_up, parse_net, parse_gateway, parse_mac, get_mtu, addr_add,
  route_add, new_link, open_link, start_command, NetArgs,
}
use httptap.Experiments.Intercept
use httptap.Experiments.Intercept.{intercept, make_stack}
use httptap.Experiments.Tun2socks
use httptap.Experiments.Tun2socks.{tun2socks, open_endpoint}

abbrev pub makes_namespace : NetCall → Bool
makes_namespace unshare_net = true
makes_namespace _ = false

-- The calls that would change the network of the host, were they made outside the namespace.
abbrev pub changes_network : NetCall → Bool
changes_network (new_tun name) = true
changes_network (link_set_up name) = true
changes_network (addr_add name net) = true
changes_network (route_add net gateway) = true
changes_network _ = false

abbrev pub adds_route : NetCall → Bool
adds_route (route_add net gateway) = true
adds_route _ = false

abbrev pub starts : NetCall → Bool
starts (start_command command environ) = true
starts _ = false

abbrev pub waits : NetCall → Bool
waits wait = true
waits _ = false

abbrev pub forwards_tcp : NetCall → Bool
forwards_tcp handle_tcp = true
forwards_tcp _ = false

abbrev pub makes_nic : NetCall → Bool
makes_nic create_nic = true
makes_nic _ = false

-- The calls by which packets of the subprocess are received.
abbrev pub receives : NetCall → Bool
receives create_nic = true
receives (open_link name) = true
receives _ = false

-- The orders that a trace of either program keeps, and that of the start and the receiving of
-- packets, which the two have the other way round.
pub record IsOrdered (new : Trace NetCall) (first second : NetCall → Bool) : Type 0 where
  pub isolated : guarded makes_namespace changes_network false new ≡ true
  pub routed : guarded adds_route starts false new ≡ true
  pub started : guarded starts waits false new ≡ true
  pub in_turn : guarded first second false new ≡ true

module _ (os : Os NetCall) (args : NetArgs) (environ : List Text) where
  abbrev net_plan : List NetCall
  net_plan =
      unshare_net
      ∷ new_tun args.tun
      ∷ link_by_name args.tun
      ∷ link_set_up args.tun
      ∷ parse_net args.link
      ∷ addr_add args.tun args.link
      ∷ parse_net args.route
      ∷ parse_gateway args.gateway
      ∷ route_add args.route args.gateway
      ∷ []

  abbrev start_plan : List Text → List NetCall
  start_plan env = start_command (command_or_shell args.command) env ∷ []

  abbrev stack_plan : List NetCall
  stack_plan =
      new_stack
      ∷ get_mtu args.tun
      ∷ parse_mac args.mac
      ∷ new_link args.tun
      ∷ handle_tcp
      ∷ create_nic
      ∷ promiscuous_mode
      ∷ spoofing
      ∷ route_table
      ∷ []

  abbrev planned_network : {tr : Trace NetCall} → Planned tr net_plan tt
  planned_network =
      planned_call os (wrap "error creating network namespace") unshare_net
      then planned_call os (wrap "error creating tun device") (new_tun args.tun)
      then planned_call os (wrap "error finding link for new tun device") (link_by_name args.tun)
      then planned_call os (wrap "error bringing up link") (link_set_up args.tun)
      then planned_call os (wrap "error parsing subnet") (parse_net args.link)
      then planned_call os (wrap "error assign address to tun device") (addr_add args.tun args.link)
      then planned_call os (wrap "error parsing global subnet") (parse_net args.route)
      then planned_call os (λ e. error "error parsing gateway") (parse_gateway args.gateway)
      then planned_call os (wrap "error creating default route") (route_add args.route args.gateway)

  abbrev planned_start : (env : List Text) {tr : Trace NetCall} → Planned tr (start_plan env) tt
  planned_start env =
      planned_call os (wrap "error starting subprocess")
        (start_command (command_or_shell args.command) env)

  abbrev planned_wait : {tr : Trace NetCall} → Planned tr (wait ∷ []) tt
  planned_wait = planned_call os (wrap "error running subprocess") wait

  abbrev planned_stack : {tr : Trace NetCall} → Planned tr stack_plan tt
  planned_stack =
      planned_done new_stack
      then planned_call os (wrap "error getting MTU") (get_mtu args.tun)
      then planned_call os (wrap "error parsing MAC address") (parse_mac args.mac)
      then planned_call os (wrap "error creating link from tun device file descriptor")
          (new_link args.tun)
      then planned_done handle_tcp
      then planned_call os (wrap "error creating NIC") create_nic
      then planned_call os (wrap "error setting promiscuous mod") promiscuous_mode
      then planned_call os (wrap "error setting promiscuous mod") spoofing
      then planned_done route_table

  intercept_follows :
      (tr : Trace NetCall)
      → Follows tr
          (net_plan ++ (start_plan (Intercept.env environ) ++ (stack_plan ++ wait ∷ [])))
          tt
          (intercept os args environ)
  unfolding intercept
  intercept_follows tr =
      (planned_network {tr = tr}
        then planned_start (Intercept.env environ)
        then planned_stack
        then planned_wait).follows

  tun2socks_follows :
      (tr : Trace NetCall)
      → Follows tr
          (net_plan
            ++ ((get_mtu args.tun ∷ open_link args.tun ∷ [])
                ++ (start_plan (Tun2socks.env environ) ++ wait ∷ [])))
          tt
          (tun2socks os args environ)
  unfolding tun2socks
  tun2socks_follows tr =
      (planned_network {tr = tr}
        then (planned_call os (wrap "error getting MTU") (get_mtu args.tun)
            then planned_call os (λ e. error "error creating ") (open_link args.tun))
        then planned_start (Tun2socks.env environ)
        then planned_wait).follows

  Follows-IsOrdered :
      (first second : NetCall → Bool) (tr : Trace NetCall) (plan : List NetCall)
      (m : M NetCall (Unit {0}))
      → Follows tr plan tt m
      → IsOrdered (succeeded plan) first second
      → (new : Trace NetCall) × ((m tr).0 ≡ tr ++ new)
        × IsOrdered new first second
        × ((early late : NetCall → Bool)
            → guarded early late false (succeeded plan) ≡ true
            → guarded early late false new ≡ true)
  Follows-IsOrdered first second tr plan m f h =
      let (new, e, keeps) = Follows-guarded tr plan tt m f in
      (
        new,
        e,
        record {
          isolated = keeps makes_namespace changes_network h.isolated;
          routed = keeps adds_route starts h.routed;
          started = keeps starts waits h.started;
          in_turn = keeps first second h.in_turn;
        },
        keeps,
      )

  -- Whichever call fails, both programs change the network only in a namespace of their own, start
  -- the subprocess only when its route leads to the tunnel, and wait for it only once started. They
  -- differ in this: gvisor-intercept starts to receive packets only after the subprocess has been
  -- started, and by a network interface that it creates only after the TCP forwarder has been
  -- registered; tun2socks starts the subprocess only when its link is open.
  pub experiments_in_order :
      (tr : Trace NetCall)
      → ((new : Trace NetCall) × ((intercept os args environ tr).0 ≡ tr ++ new)
          × IsOrdered new starts receives
          × (guarded forwards_tcp makes_nic false new ≡ true))
        × ((new : Trace NetCall) × ((tun2socks os args environ tr).0 ≡ tr ++ new)
            × IsOrdered new receives starts)
  unfolding guarded
  experiments_in_order tr =
      let (new, e, h, keeps) =
        Follows-IsOrdered starts receives tr _ (intercept os args environ) (intercept_follows tr)
          (record { isolated = refl; routed = refl; started = refl; in_turn = refl }) in
      let (new', e', h', keeps') =
        Follows-IsOrdered receives starts tr _ (tun2socks os args environ) (tun2socks_follows tr)
          (record { isolated = refl; routed = refl; started = refl; in_turn = refl }) in
      ((new, e, h, keeps forwards_tcp makes_nic refl), (new', e', h'))
