-- ===== src/Bindfiles.antt =====
-- pkg/bindfiles: single files mounted over files. Mount returns its Remover also when it fails, so
-- that what has been mounted can be undone.
pub mod Held
pub mod Undone
use Prim.Native.String.{String}
use httptap.Shared.{
  ℕ, zero, suc, ◌+◌, ◌-◌, ◌++◌, ltb, if◌then◌else◌, Option, none, some, List, [], ◌∷◌, Text, codes,
  itoa, length, Error, error, wrap, Result, ok, err,
}
use httptap.System.{Trace, Os}
use httptap.System.Files.{
  clone_newns, clone_fs, ms_private, ms_rec, ms_bind, FileCall, mkdir_temp, write_file, remove_all,
  stat, unshare, mount, unmount, File, Paths,
}

pub record Remover : Type 0 where
  pub tmpdir : Text
  pub mounts : List Text

-- What Stat says of a path: that it is a regular file, that nothing is there, that something else
-- is there, or an error.
pub data Found : Type 0 where
  regular absent other : Found
  unknown : Error → Found

-- `%08d`.
abbrev pub zeros : ℕ → Text
zeros zero = []
zeros (suc n) = b'0' ∷ zeros n

abbrev pub pad8 : ℕ → Text
pad8 i = zeros (8 - length (itoa i)) ++ itoa i

-- The trace, the Remover (nil is `none`) and the error of Mount.
pub record Mounted : Type 0 where
  pub trace : Trace FileCall
  pub remover : Option Remover
  pub failure : Option Error

abbrev pub stop : Trace FileCall → Remover → Error → Mounted
stop tr r e = record { trace = tr; remover = some r; failure = some e }

module _ (os : Os FileCall) (temp_name : Trace FileCall → Text) (paths : Paths)
    (look : Trace FileCall → Text → Found) where
  abbrev pub log : Trace FileCall → FileCall → Trace FileCall
  log tr c = tr ++ (c, os tr c) ∷ []

  -- Stat makes no difference to the answers that the trace records.
  abbrev pub unsuitable : Found → Option Error
  unsuitable regular = none
  unsuitable absent = none
  unsuitable other = some (error "not a regular file")
  unsuitable (unknown e) = some (wrap "error checking file" e)

  abbrev pub source_path : Text → ℕ → File → Text
  source_path tmpdir i f = paths.join tmpdir (pad8 i ++ (b'_' ∷ paths.base f.path))

  abbrev pub bind_call : Text → ℕ → File → FileCall
  bind_call tmpdir i f =
      mount (source_path tmpdir i f) f.path (codes "==ignored==") (ms_bind ∷ [])
        (codes "==ignored==")

  -- What follows the bind mount of one file: the rest of the loop, if it has succeeded.
  abbrev pub bound :
      (Trace FileCall → Remover → Mounted)
      → Trace FileCall
      → Remover
      → Text
      → Option Error
      → Mounted
  bound go tr r target none = go tr (record r { mounts = r.mounts ++ target ∷ [] })
  bound go tr r target (some e) = stop tr r (wrap "error bind-mounting" e)

  abbrev pub checked :
      (Trace FileCall → Remover → Mounted)
      → Trace FileCall
      → Remover
      → ℕ
      → File
      → Option Error
      → Mounted
  checked go tr r i f none =
      let c = bind_call r.tmpdir i f in bound go (log tr c) r f.path (os tr c)
  checked go tr r i f (some e) = stop tr r e

  abbrev pub written :
      (Trace FileCall → Remover → Mounted)
      → Trace FileCall
      → Remover
      → ℕ
      → File
      → Option Error
      → Mounted
  written go tr r i f none = checked go tr r i f (unsuitable (look tr f.path))
  written go tr r i f (some e) = stop tr r (wrap "error creating temporary file" e)

  -- The loop over the files.
  unfoldable pub bind_all : ℕ → List File → Trace FileCall → Remover → Mounted
  bind_all i [] tr r = record { trace = tr; remover = some r; failure = none }
  bind_all i (f ∷ files) tr r =
      let c = write_file (source_path r.tmpdir i f) f.content f.perm in
      written (bind_all (suc i) files) (log tr c) r i f (os tr c)

  abbrev pub privatised : List File → Trace FileCall → Remover → Option Error → Mounted
  privatised files tr r none = bind_all 0 files tr r
  privatised files tr r (some e) = stop tr r (error "error making root filesystem private")

  abbrev pub private_call : FileCall
  private_call =
      mount (codes "ignored") (codes "/") (codes "ignored") (ms_private ∷ ms_rec ∷ [])
        (codes "ignored")

  abbrev pub unshared : List File → Trace FileCall → Remover → Option Error → Mounted
  unshared files tr r none = privatised files (log tr private_call) r (os tr private_call)
  unshared files tr r (some e) = stop tr r (wrap "error unsharing mounts" e)

  abbrev pub unshare_call : FileCall
  unshare_call = unshare (clone_newns ∷ clone_fs ∷ [])

  abbrev pub in_temp : List File → Trace FileCall → Text → Option Error → Mounted
  in_temp files tr tmpdir none =
      unshared files (log tr unshare_call) (record { tmpdir = tmpdir; mounts = [] })
        (os tr unshare_call)
  in_temp files tr tmpdir (some e) = record {
    trace = tr;
    remover = none;
    failure = some (error "error getting the current working directory");
  }

  unfoldable pub bind_mount : List File → Trace FileCall → Mounted
  unfolding bind_all
  bind_mount files tr =
      let c = mkdir_temp (codes "overlay-root-*") in
      in_temp files (log tr c) (temp_name tr) (os tr c)

  -- The loop of Remove: it goes on after an error, and counts the errors.
  abbrev pub counted : Option Error → Trace FileCall × ℕ → Trace FileCall × ℕ
  counted none out = out
  counted (some e) out = (out.0, suc out.1)

  unfoldable pub unmount_all : List Text → Trace FileCall → Trace FileCall × ℕ
  unmount_all [] tr = (tr, 0)
  unmount_all (target ∷ targets) tr =
      counted (os tr (unmount target)) (unmount_all targets (log tr (unmount target)))

  abbrev pub removed : Remover → Trace FileCall × ℕ → Trace FileCall × Option Error
  removed r (tr, zero) = (log tr (remove_all r.tmpdir), os tr (remove_all r.tmpdir))
  removed r (tr, suc n) = (tr, some (error "errors while removing bind mounts"))

  unfoldable pub remove : Remover → Trace FileCall → Trace FileCall × Option Error
  unfolding unmount_all
  remove r tr = removed r (unmount_all r.mounts tr)
