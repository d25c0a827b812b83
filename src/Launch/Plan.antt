-- ===== src/Launch/Plan.antt =====
-- The plan of the set-up: its calls, in their order.
use httptap.Shared.{Bool, true, false, not, List, [], ◌∷◌, ◌++◌, codes, error, wrap}
use httptap.System.{Trace, Os}
use httptap.System.Follows.{Follows, planned_call, planned_done, planned_return, ◌then◌}
use httptap.Launch.{
  LaunchCall, unshare_net, set_promiscuous, wait, write_pem, write_pkcs12, new_tun, link_by_name,
  link_set_up, parse_net, parse_gateway, route_add, addr_add, interface_by_name, listen_raw,
  overlay_mount, lookup_user, parse_id, set_gid, set_uid, start_command, get_mtu, new_link,
  create_nic, promiscuous_mode, spoofing, read_device, new_stack, handle_tcp, handle_udp,
  handle_icmp4, handle_icmp6, route_table, Args, World, is_empty, Stack, homegrown, gvisor, invalid,
  when, dump, switch, env, ca_path, ca_path2, ca_path_pkcs12, write_certificates, set_up_network,
  start_dump, switch_user, stack_on,
}

module _ (os : Os LaunchCall) (w : World) (args : Args) where
  abbrev pub cert_plan : List LaunchCall
  cert_plan =
      write_pem (ca_path os w args)
      ∷ write_pem (ca_path2 os w args)
      ∷ write_pkcs12 (ca_path_pkcs12 os w args)
      ∷ []

  abbrev pub net_plan : List LaunchCall
  net_plan =
      unshare_net
      ∷ new_tun args.tun
      ∷ link_by_name args.tun
      ∷ link_set_up args.tun
      ∷ parse_net args.subnet
      ∷ addr_add args.tun args.subnet
      ∷ parse_net (codes "0.0.0.0/0")
      ∷ parse_gateway args.gateway
      ∷ route_add args.gateway
      ∷ link_by_name (codes "lo")
      ∷ link_set_up (codes "lo")
      ∷ []

  abbrev pub dump_plan : Bool → List LaunchCall
  dump_plan true = interface_by_name args.tun ∷ listen_raw args.tun ∷ set_promiscuous ∷ []
  dump_plan false = []

  abbrev pub overlay_plan : Bool → List LaunchCall
  overlay_plan true = overlay_mount args.gateway ∷ []
  overlay_plan false = []

  abbrev pub user_plan : Bool → List LaunchCall
  user_plan true = []
  user_plan false =
      lookup_user args.user
      ∷ parse_id (w.uid_of args.user)
      ∷ parse_id (w.gid_of args.user)
      ∷ set_gid (w.atoi (w.gid_of args.user))
      ∷ set_uid (w.atoi (w.uid_of args.user))
      ∷ []

  abbrev pub gvisor_plan : List LaunchCall
  gvisor_plan =
      new_stack
      ∷ get_mtu args.tun
      ∷ new_link args.tun
      ∷ handle_tcp
      ∷ handle_udp
      ∷ handle_icmp4
      ∷ handle_icmp6
      ∷ create_nic
      ∷ promiscuous_mode
      ∷ spoofing
      ∷ route_table
      ∷ []

  abbrev pub run_plan : Stack → List LaunchCall
  run_plan homegrown = start_command args.command (env os w args) ∷ read_device ∷ wait ∷ []
  run_plan gvisor = start_command args.command (env os w args) ∷ (gvisor_plan ++ wait ∷ [])
  run_plan invalid = start_command args.command (env os w args) ∷ []

  pub certs_follow :
      (tr : Trace LaunchCall) → Follows tr cert_plan tt (write_certificates os w args)
  unfolding write_certificates
  certs_follow tr =
      (planned_call {tr = tr} os (wrap "error writing certificate authority to temporary PEM file")
          (write_pem (ca_path os w args))
        then planned_call os (wrap "error writing certificate authority to temporary PEM file")
            (write_pem (ca_path2 os w args))
        then planned_call os (wrap "error writing certificate authority to temporary PEM file")
            (write_pkcs12 (ca_path_pkcs12 os w args))).follows

  pub net_follows : (tr : Trace LaunchCall) → Follows tr net_plan tt (set_up_network os w args)
  unfolding set_up_network
  net_follows tr =
      (planned_call {tr = tr} os (wrap "error creating network namespace") unshare_net
        then planned_call os (wrap "error creating tun device") (new_tun args.tun)
        then planned_call os (wrap "error finding link for new tun device") (link_by_name args.tun)
        then planned_call os (wrap "error bringing up link") (link_set_up args.tun)
        then planned_call os (wrap "error parsing subnet") (parse_net args.subnet)
        then planned_call os (wrap "error assign address to tun device")
            (addr_add args.tun args.subnet)
        then planned_call os (wrap "error parsing global subnet") (parse_net (codes "0.0.0.0/0"))
        then planned_call os (λ e. error "error parsing gateway") (parse_gateway args.gateway)
        then planned_call os (wrap "error creating default route") (route_add args.gateway)
        then planned_call os (wrap "error finding link for loopback device")
            (link_by_name (codes "lo"))
        then planned_call os (wrap "error bringing up link for loopback device")
            (link_set_up (codes "lo"))).follows

  pub dump_follows :
      (tr : Trace LaunchCall) → Follows tr (dump_plan args.dump_tcp) tt (start_dump os w args)
  unfolding start_dump
  dump_follows tr =
      elim args.dump_tcp as (λ b. Follows tr (dump_plan b) tt (when b (dump os w args))) [
        | true ↦
            (planned_call {tr = tr} os (λ e. e) (interface_by_name args.tun)
              then planned_call os (wrap "error listening for raw packet") (listen_raw args.tun)
              then planned_call os (wrap "error setting raw packet connection to promiscuous mode")
                  set_promiscuous).follows
        | false ↦ (planned_return {tr = tr} tt).follows
      ]

  pub user_follows :
      (tr : Trace LaunchCall)
      → Follows tr (user_plan (is_empty args.user)) tt (switch_user os w args)
  unfolding switch_user
  user_follows tr =
      elim (is_empty args.user)
        as (λ b. Follows tr (user_plan b) tt (when (not b) (switch os w args))) [
          | true ↦ (planned_return {tr = tr} tt).follows
          | false ↦
              (planned_call {tr = tr} os (wrap "error looking up user") (lookup_user args.user)
                then planned_call os (wrap "error parsing user id") (parse_id (w.uid_of args.user))
                then planned_call os (wrap "error parsing group id") (parse_id (w.gid_of args.user))
                then planned_call os (wrap "error switching to group")
                    (set_gid (w.atoi (w.gid_of args.user)))
                then planned_call os (wrap "error switching to user")
                    (set_uid (w.atoi (w.uid_of args.user)))).follows
        ]

  pub gvisor_follows :
      (tr : Trace LaunchCall) → Follows tr gvisor_plan tt (stack_on os w args gvisor)
  gvisor_follows tr =
      ((planned_done {tr = tr} new_stack
          then planned_call os (wrap "error getting MTU") (get_mtu args.tun)
          then planned_call os (wrap "error creating link from tun device file descriptor")
              (new_link args.tun))
        then (planned_done handle_tcp
            then planned_done handle_udp
            then planned_done handle_icmp4
            then planned_done handle_icmp6)
        then planned_call os (wrap "error creating NIC") create_nic
        then planned_call os (wrap "error activating promiscuous mode") promiscuous_mode
        then planned_call os (wrap "error activating spoofing mode") spoofing
        then planned_done route_table).follows
