-- ===== src/Launch/Order.antt =====
-- The order of the calls of the set-up, and what is given back at its end.
use httptap.Shared.{◌≡◌, Bool, true, false, List, ◌∷◌, ◌++◌}
use httptap.System.{Os}
use httptap.System.Follows.{succeeded}
use httptap.System.Guarded.{guarded}
use httptap.Launch.{LaunchCall, new_ca, make_tempdir, Args, World}
use httptap.Launch.Plan.{cert_plan, net_plan}
use httptap.Launch.Deferred.{options_plan}
use httptap.Launch.Guards.{
  makes_namespace, changes_network, adds_route, sets_gid, sets_uid, starts, waits, forwards_tcp,
  makes_nic, serves,
}

module _ (os : Os LaunchCall) (w : World) (args : Args) where
  -- The orders of the part that follows the options.
  record Tail (as_root : Bool) (q : List LaunchCall) : Type 0 where
    isolated : guarded makes_namespace changes_network true (succeeded q) ≡ true
    routed : guarded adds_route starts true (succeeded q) ≡ true
    group_first : guarded sets_gid sets_uid false (succeeded q) ≡ true
    as_asked : guarded sets_uid starts as_root (succeeded q) ≡ true
    started : guarded starts waits false (succeeded q) ≡ true
    forwarded : guarded forwards_tcp makes_nic false (succeeded q) ≡ true
    served : guarded serves waits false (succeeded q) ≡ true

  abbrev whole_plan : List LaunchCall
  whole_plan =
      new_ca
      ∷ make_tempdir
      ∷ (cert_plan os w args ++ (net_plan os w args ++ options_plan os w args))
