-- ===== src/Examples/Mounts.antt =====
-- The theorems on the mounts, for one file put over /etc and two that are bind-mounted.
use httptap.Shared.{◌≡◌, refl, none, some, List, [], ◌∷◌, ◌++◌, Text, codes, error}
use httptap.System.{Trace, Os}
use httptap.System.Files.{FileCall, unmount, File, file, Paths}
use httptap.Bindfiles.{Remover, Found, regular, bind_mount, remove}
use httptap.Bindfiles.Held.{bound_targets}
use httptap.Bindfiles.Undone.{Undoes, mounts_undone}

-- All calls succeed, but those that unmount.
abbrev os : Os FileCall
os tr (unmount target) = some (error "busy")
os tr _ = none

abbrev temp_name : Trace FileCall → Text
temp_name tr = codes "/tmp/overlay-1"

abbrev paths : Paths
paths = record { join = λ a b. a ++ (b'/' ∷ b); dir = λ a. a; base = λ a. a }

abbrev look : Trace FileCall → Text → Found
look tr path = regular

abbrev resolv_conf : File
resolv_conf = file (codes "resolv.conf") (codes "nameserver 10.1.1.1")

abbrev files : List File
files = resolv_conf ∷ file (codes "hosts") (codes "127.0.0.1 localhost") ∷ []

abbrev held : Remover
held = record { tmpdir = codes "/tmp/overlay-1"; mounts = codes "resolv.conf" ∷ codes "hosts" ∷ [] }

is_held : (bind_mount os temp_name paths look files []).remover ≡ some held
unfolding bind_mount file
is_held = refl

mounts_undone_example :
    let out = remove os temp_name paths look held [] in
    (made : Trace FileCall) × ((bind_mount os temp_name paths look files []).trace ≡ made)
    × (undone : Trace FileCall) × (out.0 ≡ undone)
    × Undoes (bound_targets made) undone out.1
mounts_undone_example = mounts_undone os temp_name paths look files [] [] held is_held
