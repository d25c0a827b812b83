-- ===== src/Overlay/Private.antt =====
-- Nothing is mounted where another process would see it.
use httptap.Shared.{◌≡◌, Bool, true, false, not, List, [], ◌∷◌, ◌++◌}
use httptap.System.{Trace, M}
use httptap.System.Files.{Flag, ms_private, FileCall, remove_all, unshare, mount, pivot_root}
use httptap.System.Follows.{Follows}
use httptap.System.Guarded.{guarded}

-- The switch to a mount namespace; the call that makes its root private; all other mounts, and
-- pivot_root.
abbrev pub unshares : FileCall → Bool
unshares (unshare flags) = true
unshares _ = false

abbrev has_private : List Flag → Bool
has_private [] = false
has_private (ms_private ∷ flags) = true
has_private (_ ∷ flags) = has_private flags

abbrev pub privatises : FileCall → Bool
privatises (mount source target fstype flags options) = has_private flags
privatises _ = false

abbrev pub attaches : FileCall → Bool
attaches (mount source target fstype flags options) = not (has_private flags)
attaches (pivot_root new old) = true
attaches _ = false

-- In a trace, the root is made private only after the switch to the namespace has succeeded, and
-- something is mounted, or the root changed, only after that has succeeded too.
abbrev pub IsPrivate : Trace FileCall → Type 0
IsPrivate new =
    (guarded unshares privatises false new ≡ true) × (guarded privatises attaches false new ≡ true)

abbrev pub never : FileCall → Bool
never c = false

abbrev pub deletes : FileCall → Bool
deletes (remove_all path) = true
deletes _ = false

abbrev pub IsTidy : Trace FileCall → Type 0
IsTidy new = IsPrivate new × (guarded never deletes false new ≡ true)

-- What a run adds to a trace satisfies P.
abbrev pub Adds : {A : Type 0} → (Trace FileCall → Type 0) → M FileCall A → Trace FileCall → Type 0
Adds P m tr = (new : Trace FileCall) × ((m tr).0 ≡ tr ++ new) × P new
