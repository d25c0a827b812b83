-- ===== src/Launch.antt =====
-- Main of httptap.go, from the certificate authority to the end of the subprocess: the calls of the
-- operating system and of the network libraries, in their order, with the deferred calls. The call
-- of Mount of pkg/overlay is one call here.
pub mod Within
pub mod Plan
pub mod Deferred
pub mod Guards
pub mod Order
pub mod Env
pub mod Exit
pub mod Reexec
use Prim.Native.String.{String}
use httptap.Shared.{
  ℕ, Bool, true, false, not, ◌&&◌, if◌then◌else◌, Option, some, List, [], ◌∷◌, ◌++◌, Text, codes,
  same, Error, error, wrap, Result, err,
}
use httptap.System.{Trace, Os, M, return, call, done, deferring, ◌>>=◌, ◌>>◌}

pub data LaunchCall : Type 0 where
  new_ca make_tempdir unshare_net set_promiscuous wait remove_overlay : LaunchCall
  write_pem write_pkcs12 new_tun link_by_name link_set_up parse_net parse_gateway route_add :
      Text → LaunchCall
  addr_add : Text → Text → LaunchCall
  interface_by_name listen_raw overlay_mount lookup_user parse_id remove_all : Text → LaunchCall
  set_gid set_uid : ℕ → LaunchCall
  start_command : List Text → List Text → LaunchCall
  get_mtu new_link : Text → LaunchCall
  create_nic promiscuous_mode spoofing : LaunchCall
  read_device new_stack handle_tcp handle_udp handle_icmp4 handle_icmp6 route_table : LaunchCall

-- The arguments that the set-up reads.
pub record Args : Type 0 where
  pub tun : Text
  pub subnet : Text
  pub gateway : Text
  pub user : Text
  pub no_overlay : Bool
  pub stack : Text
  pub dump_tcp : Bool
  pub command : List Text

-- What the set-up learns from outside: the name of the temporary directory, whether /etc is a
-- directory, the ids of a user as texts and numbers, the environment, the variables that OpenSSL
-- reads, and the library's join and ToLower.
pub record World : Type 0 where
  pub tempdir : Text
  pub etc_is_directory : Bool
  pub uid_of : Text → Text
  pub gid_of : Text → Text
  pub atoi : Text → ℕ
  pub environ : List Text
  pub cert_file_env : Text
  pub cert_dir_env : Text
  pub join : Text → Text → Text
  pub to_lower : Text → Text

-- `if b { … }`.
abbrev pub when : Bool → M LaunchCall (Unit {0}) → M LaunchCall (Unit {0})
when true m = m
when false m = return tt

abbrev pub is_empty : Text → Bool
is_empty [] = true
is_empty (c ∷ t) = false

-- `if name != "" { env = append(env, name+"="+value) }`.
abbrev pub assigned : Text → Text → List Text
assigned [] value = []
assigned (c ∷ name) value = ((c ∷ name) ++ (codes "=" ++ value)) ∷ []

pub data Stack : Type 0 where
  homegrown gvisor invalid : Stack

abbrev pub stack_of : Text → Stack
stack_of name =
    if same name (codes "homegrown")
    then homegrown
    else if same name (codes "gvisor")
    then gvisor
    else invalid

module _ (os : Os LaunchCall) where
  module _ (w : World) (args : Args) where
    abbrev pub ca_path : Text
    ca_path = w.join w.tempdir (codes "ca-certificates.crt")

    abbrev pub ca_path2 : Text
    ca_path2 = w.join w.tempdir (codes "ca-bundle.crt")

    abbrev pub ca_path_pkcs12 : Text
    ca_path_pkcs12 = w.join w.tempdir (codes "ca-certificates.pkcs12")

    -- The environment of the subprocess.
    unfoldable pub env : List Text
    env =
        w.environ
        ++ (codes "PS1=HTTPTAP # "
            ∷ codes "HTTPTAP=1"
            ∷ (codes "CURL_CA_BUNDLE=" ++ ca_path)
            ∷ (codes "REQUESTS_CA_BUNDLE=" ++ ca_path)
            ∷ (codes "SSL_CERT_FILE=" ++ ca_path)
            ∷ (codes "DENO_CERT=" ++ ca_path)
            ∷ (codes "NODE_EXTRA_CA_CERTS=" ++ ca_path)
            ∷ (codes "_JAVA_OPTIONS=-Djavax.net.ssl.trustStore=" ++ ca_path_pkcs12)
            ∷ (codes "JDK_JAVA_OPTIONS=-Djavax.net.ssl.trustStore=" ++ ca_path_pkcs12)
            ∷ (codes "NODE_EXTRA_CA_CERTS=" ++ ca_path)
            ∷ (assigned w.cert_file_env ca_path ++ assigned w.cert_dir_env w.tempdir))

    -- The three files with the certificate authority.
    unfoldable pub write_certificates : M LaunchCall (Unit {0})
    write_certificates = do
      call os (wrap "error writing certificate authority to temporary PEM file") (write_pem ca_path)
      call os (wrap "error writing certificate authority to temporary PEM file")
          (write_pem ca_path2)
      call os (wrap "error writing certificate authority to temporary PEM file")
          (write_pkcs12 ca_path_pkcs12)

    -- The network namespace, its device, address and default route, and the loopback device.
    unfoldable pub set_up_network : M LaunchCall (Unit {0})
    set_up_network = do
      call os (wrap "error creating network namespace") unshare_net
      call os (wrap "error creating tun device") (new_tun args.tun)
      call os (wrap "error finding link for new tun device") (link_by_name args.tun)
      call os (wrap "error bringing up link") (link_set_up args.tun)
      call os (wrap "error parsing subnet") (parse_net args.subnet)
      call os (wrap "error assign address to tun device") (addr_add args.tun args.subnet)
      call os (wrap "error parsing global subnet") (parse_net (codes "0.0.0.0/0"))
      call os (λ e. error "error parsing gateway") (parse_gateway args.gateway)
      call os (wrap "error creating default route") (route_add args.gateway)
      call os (wrap "error finding link for loopback device") (link_by_name (codes "lo"))
      call os (wrap "error bringing up link for loopback device") (link_set_up (codes "lo"))

    abbrev pub dump : M LaunchCall (Unit {0})
    dump = do
      call os (λ e. e) (interface_by_name args.tun)
      call os (wrap "error listening for raw packet") (listen_raw args.tun)
      call os (wrap "error setting raw packet connection to promiscuous mode") set_promiscuous

    unfoldable pub start_dump : M LaunchCall (Unit {0})
    start_dump = when args.dump_tcp dump

    abbrev pub switch : M LaunchCall (Unit {0})
    switch = do
      call os (wrap "error looking up user") (lookup_user args.user)
      call os (wrap "error parsing user id") (parse_id (w.uid_of args.user))
      call os (wrap "error parsing group id") (parse_id (w.gid_of args.user))
      call os (wrap "error switching to group") (set_gid (w.atoi (w.gid_of args.user)))
      call os (wrap "error switching to user") (set_uid (w.atoi (w.uid_of args.user)))

    unfoldable pub switch_user : M LaunchCall (Unit {0})
    switch_user = when (not (is_empty args.user)) switch

    -- The gvisor case: the stack and its link, the forwarders that it gets, and its interface.
    abbrev gvisor_link : M LaunchCall (Unit {0})
    gvisor_link = do
      done new_stack
      call os (wrap "error getting MTU") (get_mtu args.tun)
      call os (wrap "error creating link from tun device file descriptor") (new_link args.tun)

    abbrev gvisor_handlers : M LaunchCall (Unit {0})
    gvisor_handlers = do done handle_tcp; done handle_udp; done handle_icmp4; done handle_icmp6

    abbrev gvisor_nic : M LaunchCall (Unit {0})
    gvisor_nic = do
      call os (wrap "error creating NIC") create_nic
      call os (wrap "error activating promiscuous mode") promiscuous_mode
      call os (wrap "error activating spoofing mode") spoofing
      done route_table

    abbrev no_stack : M LaunchCall (Unit {0})
    no_stack tr = (tr, err (error "invalid stack"))

    abbrev pub stack_on : Stack → M LaunchCall (Unit {0})
    stack_on homegrown = done read_device
    stack_on gvisor = gvisor_link >> (gvisor_handlers >> gvisor_nic)
    stack_on invalid = no_stack

    abbrev pub wait_command : M LaunchCall (Unit {0})
    wait_command = call os (wrap "error running subprocess") wait

    -- The subprocess is started before the stack is chosen.
    unfoldable pub run_command : M LaunchCall (Unit {0})
    unfolding env
    run_command = do
      call os (wrap "error starting subprocess") (start_command args.command env)
      stack_on (stack_of (w.to_lower args.stack))
      wait_command

    unfoldable pub as_user : M LaunchCall (Unit {0})
    unfolding switch_user run_command
    as_user = switch_user >> run_command

    abbrev pub overlaid : Bool → M LaunchCall (Unit {0})
    overlaid true =
        call os (wrap "error setting up overlay") (overlay_mount args.gateway)
        >> deferring os remove_overlay as_user
    overlaid false = as_user

    unfoldable pub launch : M LaunchCall (Unit {0})
    unfolding write_certificates set_up_network start_dump as_user
    launch = do
      call os (wrap "error creating root CA") new_ca
      call os (wrap "error creating temporary directory") make_tempdir
      deferring os (remove_all w.tempdir) (do
        write_certificates
        set_up_network
        start_dump
        overlaid (w.etc_is_directory && not args.no_overlay))
