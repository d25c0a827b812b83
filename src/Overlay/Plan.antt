-- ===== src/Overlay/Plan.antt =====
-- The calls that the functions of pkg/overlay and pkg/overlayroot make, in their order.
use httptap.Shared.{List, [], ◌∷◌, ◌++◌, Text, codes}
use httptap.System.{Trace, Os, M, call, reporting, ◌>>=◌}
use httptap.System.Files.{
  clone_newns, clone_fs, ms_private, ms_rec, FileCall, mkdir_temp, mkdir_all, write_file, unshare,
  mount, pivot_root, File, Paths, mode_perm,
}
use httptap.System.Follows.{
  Follows, concat_map, Follows-call, Follows-call_for, Follows->>=, Follows-reporting, Planned,
  ◌then◌, planned_call, planned_return, planned_for_each,
}
use httptap.Overlay.{Remover, wrapped, instead, bake, make_temp, mount_over, mount_root, pivot}

module _ (os : Os FileCall) (temp_name : Trace FileCall → Text) (paths : Paths) where
  abbrev pub dirs_plan : List Text → List FileCall
  dirs_plan = concat_map (λ dir. mkdir_all dir mode_perm ∷ [])

  abbrev pub bake_plan : Text → File → List FileCall
  bake_plan dir f =
      mkdir_all (paths.dir (paths.join dir f.path)) f.perm
      ∷ write_file (paths.join dir f.path) f.content f.perm
      ∷ []

  abbrev pub private_plan : List FileCall
  private_plan =
      unshare (clone_newns ∷ clone_fs ∷ [])
      ∷ mount (codes "ignored") (codes "/") (codes "ignored") (ms_private ∷ ms_rec ∷ [])
          (codes "ignored")
      ∷ []

  bake_planned : (dir : Text) (f : File) (tr : Trace FileCall) → Planned tr (bake_plan dir f) tt
  bake_planned dir f tr =
      planned_call os (λ e. e) (mkdir_all (paths.dir (paths.join dir f.path)) f.perm)
      then planned_call os (λ e. e) (write_file (paths.join dir f.path) f.content f.perm)

  bake_follows :
      (dir : Text) (f : File) (tr : Trace FileCall)
      → Follows tr (bake_plan dir f) tt (bake os temp_name paths dir f)
  unfolding bake bake_planned
  bake_follows dir f tr = (bake_planned dir f tr).follows

  abbrev planned_bakes :
      (dir : Text) (nodes : List File) {tr : Trace FileCall}
      → Planned tr (concat_map (bake_plan dir) nodes) tt
  planned_bakes dir nodes =
      planned_for_each (bake_plan dir)
        (λ node. reporting (wrapped "error baking node") (bake os temp_name paths dir node))
        (λ f t.
          Follows-reporting (wrapped "error baking node") t (bake_plan dir f) tt
            (bake os temp_name paths dir f) (bake_follows dir f t))
        nodes

  abbrev planned_dirs : (dirs : List Text) {tr : Trace FileCall} → Planned tr (dirs_plan dirs) tt
  planned_dirs dirs =
      planned_for_each (λ dir. mkdir_all dir mode_perm ∷ [])
        (λ dir. call os (wrapped "error creating directory") (mkdir_all dir mode_perm))
        (λ dir t. Follows-call os (wrapped "error creating directory") (mkdir_all dir mode_perm) t)
        dirs

  abbrev planned_private : {tr : Trace FileCall} → Planned tr private_plan tt
  planned_private =
      planned_call os (wrapped "error unsharing mounts") (unshare (clone_newns ∷ clone_fs ∷ []))
      then planned_call os (instead "error making root filesystem private") (
          mount (codes "ignored") (codes "/") (codes "ignored") (ms_private ∷ ms_rec ∷ [])
            (codes "ignored"))

  abbrev pub overlay_call : Text → Text → Text → Text → FileCall
  overlay_call lower target layerdir workdir = mount (codes "overlay") target (codes "overlay") [] (
      codes "lowerdir="
      ++ (lower ++ (codes ",upperdir=" ++ (layerdir ++ (codes ",workdir=" ++ workdir)))))

  -- The calls of the three functions, in their temporary directory.
  abbrev pub over_plan : Text → List File → Text → List FileCall
  over_plan path nodes tmpdir =
      let workdir = paths.join tmpdir (codes "work") in
      let layerdir = paths.join tmpdir (codes "layer") in
      dirs_plan (layerdir ∷ workdir ∷ [])
      ++ (concat_map (bake_plan layerdir) nodes
          ++ (private_plan ++ overlay_call path path layerdir workdir ∷ []))

  abbrev pub root_plan : List File → List FileCall → Text → List FileCall
  root_plan nodes last tmpdir =
      let newroot = paths.join tmpdir (codes "merged") in
      let workdir = paths.join tmpdir (codes "work") in
      let layerdir = paths.join tmpdir (codes "layer") in
      dirs_plan (newroot ∷ paths.join newroot (codes "old") ∷ layerdir ∷ workdir ∷ [])
      ++ (concat_map (bake_plan layerdir) nodes
          ++ (private_plan ++ overlay_call (codes "/") newroot layerdir workdir ∷ last))

  abbrev pub removes : Text → Remover
  removes tmpdir = record { tmpdir = tmpdir }

  abbrev planned_overlay :
      (lower target layerdir workdir : Text) {tr : Trace FileCall}
      → Planned tr (overlay_call lower target layerdir workdir ∷ []) tt
  planned_overlay lower target layerdir workdir =
      planned_call os (wrapped "error mounting overlay filesystem")
        (overlay_call lower target layerdir workdir)

  abbrev over_tail :
      (path : Text) (nodes : List File) (tmpdir : Text) {tr : Trace FileCall}
      → Planned tr (over_plan path nodes tmpdir) (removes tmpdir)
  over_tail path nodes tmpdir =
      let workdir = paths.join tmpdir (codes "work") in
      let layerdir = paths.join tmpdir (codes "layer") in
      planned_dirs (layerdir ∷ workdir ∷ [])
      then planned_bakes layerdir nodes
      then planned_private
      then planned_overlay path path layerdir workdir
      then planned_return (removes tmpdir)

  abbrev root_tail :
      (nodes : List File) (tmpdir : Text) {tr : Trace FileCall}
      → Planned tr (root_plan nodes [] tmpdir) (removes tmpdir)
  root_tail nodes tmpdir =
      let newroot = paths.join tmpdir (codes "merged") in
      let workdir = paths.join tmpdir (codes "work") in
      let layerdir = paths.join tmpdir (codes "layer") in
      planned_dirs (newroot ∷ paths.join newroot (codes "old") ∷ layerdir ∷ workdir ∷ [])
      then planned_bakes layerdir nodes
      then planned_private
      then planned_overlay (codes "/") newroot layerdir workdir
      then planned_return (removes tmpdir)

  abbrev pub pivot_call : Text → FileCall
  pivot_call tmpdir =
      let newroot = paths.join tmpdir (codes "merged") in
      pivot_root newroot (paths.join newroot (codes "old"))

  abbrev pivot_tail :
      (nodes : List File) (tmpdir : Text) {tr : Trace FileCall}
      → Planned tr (root_plan nodes (pivot_call tmpdir ∷ []) tmpdir) (removes tmpdir)
  pivot_tail nodes tmpdir =
      let newroot = paths.join tmpdir (codes "merged") in
      let workdir = paths.join tmpdir (codes "work") in
      let layerdir = paths.join tmpdir (codes "layer") in
      planned_dirs (newroot ∷ paths.join newroot (codes "old") ∷ layerdir ∷ workdir ∷ [])
      then planned_bakes layerdir nodes
      then planned_private
      then planned_overlay (codes "/") newroot layerdir workdir
      then planned_call os (wrapped "error changing the root of the filesystem") (pivot_call tmpdir)
      then planned_return (removes tmpdir)

  in_temp :
      (pat : Text) (plan : Text → List FileCall) (run : Text → M FileCall Remover)
      (tr : Trace FileCall)
      → ((tmpdir : Text) (t : Trace FileCall)
          → Follows t (plan tmpdir) (removes tmpdir) (run tmpdir))
      → Follows tr
          (mkdir_temp pat ∷ plan (temp_name tr))
          (removes (temp_name tr))
          (make_temp os temp_name paths pat >>= run)
  in_temp pat plan run tr tail =
      Follows->>= tr (mkdir_temp pat ∷ []) (plan (temp_name tr)) (temp_name tr)
        (removes (temp_name tr)) (make_temp os temp_name paths pat) run
        (Follows-call_for os (instead "error getting the current working directory")
          (mkdir_temp pat) temp_name tr)
        (tail (temp_name tr) _)

  pub mount_over_follows :
      (path : Text) (nodes : List File) (tr : Trace FileCall)
      → Follows tr
          (mkdir_temp (codes "overlay-*") ∷ over_plan path nodes (temp_name tr))
          (removes (temp_name tr))
          (mount_over os temp_name paths path nodes)
  unfolding mount_over
  mount_over_follows path nodes tr =
      in_temp (codes "overlay-*") (over_plan path nodes)
        (λ t. (over_tail path nodes t {tr = []}).run) tr
        (λ tmpdir t. (over_tail path nodes tmpdir {tr = t}).follows)

  pub mount_root_follows :
      (nodes : List File) (tr : Trace FileCall)
      → Follows tr
          (mkdir_temp (codes "overlay-root-*") ∷ root_plan nodes [] (temp_name tr))
          (removes (temp_name tr))
          (mount_root os temp_name paths nodes)
  unfolding mount_root
  mount_root_follows nodes tr =
      in_temp (codes "overlay-root-*") (root_plan nodes []) (λ t. (root_tail nodes t {tr = []}).run)
        tr (λ tmpdir t. (root_tail nodes tmpdir {tr = t}).follows)

  pub pivot_follows :
      (nodes : List File) (tr : Trace FileCall)
      → let tmpdir = temp_name tr in
        Follows tr
          (mkdir_temp (codes "overlay-root-*") ∷ root_plan nodes (pivot_call tmpdir ∷ []) tmpdir)
          (removes tmpdir)
          (pivot os temp_name paths nodes)
  unfolding pivot
  pivot_follows nodes tr =
      in_temp (codes "overlay-root-*") (λ t. root_plan nodes (pivot_call t ∷ []) t)
        (λ t. (pivot_tail nodes t {tr = []}).run) tr
        (λ tmpdir t. (pivot_tail nodes tmpdir {tr = t}).follows)
