-- ===== src/Launch/Deferred.antt =====
-- The parts of the set-up between its deferred calls, with the plan of each.
use httptap.Shared.{refl, Bool, true, false, not, ◌&&◌, List, [], ◌∷◌, ◌++◌, All, wrap}
use httptap.System.{Trace, Os, M, call, done, ◌>>◌, deferring}
use httptap.System.Follows.{Follows-call, Follows-done}
use httptap.Launch.{
  LaunchCall, new_ca, make_tempdir, wait, remove_overlay, overlay_mount, remove_all, start_command,
  read_device, Args, World, is_empty, Stack, homegrown, gvisor, invalid, stack_of, env,
  write_certificates, set_up_network, start_dump, switch_user, stack_on, run_command, wait_command,
  as_user, overlaid, launch,
}
use httptap.Launch.Within.{
  AcquiresNone, Within, Within-done, Within->>, Within-call, Within-last, Within-deferring,
}
use httptap.Launch.Plan.{
  cert_plan, net_plan, dump_plan, overlay_plan, user_plan, gvisor_plan, run_plan, certs_follow,
  net_follows, dump_follows, user_follows, gvisor_follows,
}

module _ (os : Os LaunchCall) (w : World) (args : Args) where
  abbrev ends : M LaunchCall (Unit {0})
  ends = wait_command os w args

  ends-Within : (tr : Trace LaunchCall) → Within w tr (wait ∷ []) ends
  ends-Within tr = Within-last w tr (wait ∷ []) ends (refl, tt) (Follows-call os _ wait tr)

  command-Within :
      (s : Stack) (tr : Trace LaunchCall)
      → Within w tr (run_plan os w args s) (
          call os (wrap "error starting subprocess") (start_command args.command (env os w args))
          >> (stack_on os w args s >> ends))
  command-Within homegrown tr =
      Within-call w tr os (wrap "error starting subprocess")
        (start_command args.command (env os w args)) (read_device ∷ wait ∷ [])
        (done read_device >> ends) refl
        (Within->> w _ (read_device ∷ []) (wait ∷ []) (done read_device) ends (refl, tt)
          (Follows-done read_device _) (ends-Within _))
  command-Within gvisor tr =
      Within-call w tr os (wrap "error starting subprocess")
        (start_command args.command (env os w args)) ((gvisor_plan os w args) ++ wait ∷ [])
        (stack_on os w args gvisor >> ends) refl
        (Within->> w _ (gvisor_plan os w args) (wait ∷ []) (stack_on os w args gvisor) ends
          (refl, (refl, (refl, (refl, (refl, (refl, (refl, (refl, (refl, (refl, (refl, tt)))))))))))
          (gvisor_follows os w args _) (ends-Within _))
  command-Within invalid tr =
      Within-call w tr os (wrap "error starting subprocess")
        (start_command args.command (env os w args)) [] (stack_on os w args invalid >> ends) refl
        (Within-done w _ (stack_on os w args invalid >> ends) refl)

  user-Within :
      (tr : Trace LaunchCall)
      → Within w tr
          (user_plan os w args (is_empty args.user)
            ++ run_plan os w args (stack_of (w.to_lower args.stack)))
          (as_user os w args)
  unfolding as_user run_command
  user-Within tr =
      Within->> w tr (user_plan os w args (is_empty args.user)) _ (switch_user os w args)
        (run_command os w args)
        (elim (is_empty args.user) as (λ b. All (AcquiresNone w) (user_plan os w args b)) [
          | true ↦ tt
          | false ↦ (refl, (refl, (refl, (refl, (refl, tt)))))
        ])
        (user_follows os w args tr) (command-Within (stack_of (w.to_lower args.stack)) _)

  overlay-Within :
      (o : Bool) (q : List LaunchCall)
      → ((tr : Trace LaunchCall) → Within w tr q (as_user os w args))
      → (tr : Trace LaunchCall) → Within w tr (overlay_plan os w args o ++ q) (overlaid os w args o)
  overlay-Within true q h tr =
      Within-deferring w tr os (wrap "error setting up overlay") (overlay_mount args.gateway)
        remove_overlay q (as_user os w args) refl (h _)
  overlay-Within false q h tr = h tr

  abbrev pub options_plan : List LaunchCall
  options_plan =
      dump_plan os w args args.dump_tcp
      ++ (overlay_plan os w args (w.etc_is_directory && not args.no_overlay)
          ++ (user_plan os w args (is_empty args.user)
              ++ run_plan os w args (stack_of (w.to_lower args.stack))))

  abbrev rest : M LaunchCall (Unit {0})
  rest = overlaid os w args (w.etc_is_directory && not args.no_overlay)

  abbrev with_options : M LaunchCall (Unit {0})
  with_options = start_dump os w args >> rest

  abbrev with_network : M LaunchCall (Unit {0})
  with_network = set_up_network os w args >> with_options

  abbrev with_certificates : M LaunchCall (Unit {0})
  with_certificates = write_certificates os w args >> with_network

  abbrev in_tempdir : M LaunchCall (Unit {0})
  in_tempdir =
      call os (wrap "error creating temporary directory") make_tempdir
      >> deferring os (remove_all w.tempdir) with_certificates

  options-Within : (tr : Trace LaunchCall) → Within w tr options_plan with_options
  options-Within tr =
      Within->> w tr (dump_plan os w args args.dump_tcp) _ (start_dump os w args) rest
        (elim args.dump_tcp as (λ b. All (AcquiresNone w) (dump_plan os w args b)) [
          | true ↦ (refl, (refl, (refl, tt)))
          | false ↦ tt
        ])
        (dump_follows os w args _)
        (overlay-Within (w.etc_is_directory && not args.no_overlay) _ user-Within _)

  pub launch-Within :
      (tr : Trace LaunchCall)
      → Within w tr
          (new_ca
            ∷ make_tempdir
            ∷ ((cert_plan os w args) ++ ((net_plan os w args) ++ options_plan)))
          (launch os w args)
  unfolding launch
  launch-Within tr =
      Within-call w tr os (wrap "error creating root CA") new_ca
        (make_tempdir ∷ ((cert_plan os w args) ++ ((net_plan os w args) ++ options_plan)))
        in_tempdir refl
        (Within-deferring w _ os (wrap "error creating temporary directory") make_tempdir
          (remove_all w.tempdir) ((cert_plan os w args) ++ ((net_plan os w args) ++ options_plan))
          with_certificates refl
          (Within->> w _ (cert_plan os w args) ((net_plan os w args) ++ options_plan)
            (write_certificates os w args) with_network (refl, (refl, (refl, tt)))
            (certs_follow os w args _)
            (Within->> w _ (net_plan os w args) options_plan (set_up_network os w args) with_options
              (
                refl,
                (refl, (refl, (refl, (refl, (refl, (refl, (refl, (refl, (refl, (refl, tt)))))))))),
              )
              (net_follows os w args _) (options-Within _))))
