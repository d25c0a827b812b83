-- ===== src/Overlay.antt =====
-- pkg/overlay and pkg/overlayroot: an overlay file system over a directory, or over the root. The
-- operating system, the names of its temporary directories and path/filepath are parameters.
pub mod Plan
pub mod Private
use Prim.Native.String.{String}
use httptap.Shared.{List, [], ◌∷◌, ◌++◌, Text, codes, Error, error, wrap}
use httptap.System.{Trace, Os, M, return, call_for, call, reporting, ◌>>=◌, ◌>>◌, for_each}
use httptap.System.Files.{
  clone_newns, clone_fs, ms_private, ms_rec, FileCall, mkdir_temp, mkdir_all, write_file,
  remove_all, unshare, mount, pivot_root, File, Paths, mode_perm,
}

-- `fmt.Errorf("…: %w", err)`, and an error that leaves the cause out.
abbrev pub wrapped : String → Error → Error
wrapped message e = wrap message e

abbrev pub instead : String → Error → Error
instead message e = error message

-- The Remover holds the name of the temporary directory.
pub record Remover : Type 0 where
  pub tmpdir : Text

module _ (os : Os FileCall) (temp_name : Trace FileCall → Text) (paths : Paths) where
  -- file.Bake: the file, below the directory.
  unfoldable pub bake : Text → File → M FileCall (Unit {0})
  bake dir f =
      let path = paths.join dir f.path in
      call os (λ e. e) (mkdir_all (paths.dir path) f.perm)
      >> call os (λ e. e) (write_file path f.content f.perm)

  -- os.MkdirTemp("", pattern).
  abbrev make_temp : Text → M FileCall Text
  make_temp pat =
      call_for os (instead "error getting the current working directory") (mkdir_temp pat) temp_name

  abbrev make_dirs : List Text → M FileCall (Unit {0})
  make_dirs =
      for_each (λ dir. call os (wrapped "error creating directory") (mkdir_all dir mode_perm))

  abbrev bake_all : Text → List File → M FileCall (Unit {0})
  bake_all dir = for_each (λ node. reporting (wrapped "error baking node") (bake dir node))

  -- The switch to a mount namespace of its own, whose root is then made private.
  abbrev private_namespace : M FileCall (Unit {0})
  private_namespace =
      call os (wrapped "error unsharing mounts") (unshare (clone_newns ∷ clone_fs ∷ []))
      >> call os (instead "error making root filesystem private") (
          mount (codes "ignored") (codes "/") (codes "ignored") (ms_private ∷ ms_rec ∷ [])
            (codes "ignored"))

  abbrev mount_overlay : Text → Text → Text → Text → M FileCall (Unit {0})
  mount_overlay lower target layerdir workdir =
      call os (wrapped "error mounting overlay filesystem") (
        mount (codes "overlay") target (codes "overlay") [] (
          codes "lowerdir="
          ++ (lower ++ (codes ",upperdir=" ++ (layerdir ++ (codes ",workdir=" ++ workdir))))))

  -- Mount of pkg/overlay.
  unfoldable pub mount_over : Text → List File → M FileCall Remover
  mount_over path nodes = do
    tmpdir ← make_temp (codes "overlay-*")
    let workdir = paths.join tmpdir (codes "work")
    let layerdir = paths.join tmpdir (codes "layer")
    make_dirs (layerdir ∷ workdir ∷ [])
    bake_all layerdir nodes
    private_namespace
    mount_overlay path path layerdir workdir
    return (record { tmpdir = tmpdir })

  -- Mount of pkg/overlayroot.
  unfoldable pub mount_root : List File → M FileCall Remover
  mount_root nodes = do
    tmpdir ← make_temp (codes "overlay-root-*")
    let newroot = paths.join tmpdir (codes "merged")
    let oldroot = paths.join newroot (codes "old")
    let workdir = paths.join tmpdir (codes "work")
    let layerdir = paths.join tmpdir (codes "layer")
    make_dirs (newroot ∷ oldroot ∷ layerdir ∷ workdir ∷ [])
    bake_all layerdir nodes
    private_namespace
    mount_overlay (codes "/") newroot layerdir workdir
    return (record { tmpdir = tmpdir })

  -- Pivot of pkg/overlayroot.
  unfoldable pub pivot : List File → M FileCall Remover
  pivot nodes = do
    tmpdir ← make_temp (codes "overlay-root-*")
    let newroot = paths.join tmpdir (codes "merged")
    let oldroot = paths.join newroot (codes "old")
    let workdir = paths.join tmpdir (codes "work")
    let layerdir = paths.join tmpdir (codes "layer")
    make_dirs (newroot ∷ oldroot ∷ layerdir ∷ workdir ∷ [])
    bake_all layerdir nodes
    private_namespace
    mount_overlay (codes "/") newroot layerdir workdir
    call os (wrapped "error changing the root of the filesystem") (pivot_root newroot oldroot)
    return (record { tmpdir = tmpdir })

  unfoldable pub remove : Remover → M FileCall (Unit {0})
  remove r = call os (λ e. e) (remove_all r.tmpdir)
