-- ===== src/System/Files.antt =====
-- The calls of pkg/overlay, pkg/overlayroot and pkg/bindfiles, and the files that they put in place.
use httptap.Shared.{ℕ, List, Text}
use httptap.Packet.{Bytes}

pub data Flag : Type 0 where
  clone_newns clone_fs ms_private ms_rec ms_bind : Flag

-- `mount source target fstype flags options`; an `unmount` has no flags; `stat` is answered by an
-- error also where the file is there and is not regular.
pub data FileCall : Type 0 where
  mkdir_temp : Text → FileCall
  mkdir_all : Text → ℕ → FileCall
  write_file : Text → Bytes → ℕ → FileCall
  remove_all : Text → FileCall
  stat : Text → FileCall
  unshare : List Flag → FileCall
  mount : Text → Text → Text → List Flag → Text → FileCall
  unmount : Text → FileCall
  pivot_root : Text → Text → FileCall

-- A file with the content that it is to have.
pub record File : Type 0 where
  pub path : Text
  pub content : Bytes
  pub perm : ℕ

-- os.ModePerm.
abbrev pub mode_perm : ℕ
mode_perm = 511

-- path/filepath.
pub record Paths : Type 0 where
  pub join : Text → Text → Text
  pub dir : Text → Text
  pub base : Text → Text

-- File and FilePerm of each of the packages.
unfoldable pub file_perm : Text → Bytes → ℕ → File
file_perm path content perm = record { path = path; content = content; perm = perm }

unfoldable pub file : Text → Bytes → File
unfolding file_perm
file path content = file_perm path content mode_perm
