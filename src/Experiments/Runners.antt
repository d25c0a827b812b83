-- ===== src/Experiments/Runners.antt =====
-- The experiments setuid, unprivelged, pivotroot and bindmount: each runs a command under changed
-- circumstances. What answers a call is a parameter; Pivot of pkg/overlayroot and Mount of
-- pkg/bindfiles, with Remove, are one call each.
pub mod Anyway
use httptap.Shared.{
  ℕ, Bool, true, false, not, if◌then◌else◌, Option, none, some, List, [], ◌∷◌, ◌++◌, Text, codes,
  same, Error, wrap, ok,
}
use httptap.Packet.{Bytes}
use httptap.System.{Os, M, return, call, deferring, ◌>>=◌, ◌>>◌}
use httptap.System.Files.{File}
use httptap.Launch.Reexec.{Process, Cmd, IdMap, command_or_shell}

pub data RunCall : Type 0 where
  set_gid set_uid : ℕ → RunCall
  pivot_files bind_files : List (Text × Bytes) → RunCall
  remove_mount wait : RunCall
  new_tun : Text → RunCall
  start run_command : List Text → List Text → RunCall

module _ (os : Os RunCall) where
  -- `err := c; if err != nil { log.Printf(…) }`: the error is only reported.
  unfoldable pub ignoring : RunCall → M RunCall (Unit {0})
  ignoring c tr = (tr ++ (c, os tr c) ∷ [], ok tt)

  abbrev wait_command : M RunCall (Unit {0})
  wait_command = call os (wrap "Alt süreç çalıştırılırken hata") wait

  -- setuid, for a command of at least one word; without one it panics after the two switches.
  unfoldable pub setuid : ℕ → ℕ → Text → List Text → M RunCall (Unit {0})
  unfolding ignoring
  setuid user group c cs = do
    ignoring (set_gid group)
    ignoring (set_uid user)
    call os (wrap "Alt süreç başlatılırken hata")
        (start (c ∷ cs) (codes "PS1=SETUID # " ∷ codes "HTTPTAP=1" ∷ []))
    wait_command

  abbrev run_shell : List Text → M RunCall (Unit {0})
  run_shell command =
      call os (wrap "alt süreç başlatma hatası")
        (start (command_or_shell command) (codes "PS1=MOUNTNAMESPACE # " ∷ []))
      >> wait_command

  -- pivotroot and bindmount.
  unfoldable pub pivot_root : List Text → M RunCall (Unit {0})
  pivot_root command =
      call os (wrap "kök dosya sistemini kaplarken hata")
        (pivot_files ((codes "/a/b/test", codes "merhaba kaplama kök\n") ∷ []))
      >> deferring os remove_mount (run_shell command)

  unfoldable pub bind_mount : List Text → M RunCall (Unit {0})
  bind_mount command =
      call os (wrap "bind-mounting hatası")
        (bind_files ((codes "/etc/resolv.conf", codes "hello bindfiles\n") ∷ []))
      >> deferring os remove_mount (run_shell command)

  -- The inner process of unprivelged, for a command of at least one word.
  unfoldable unprivileged : List Text → Text → List Text → M RunCall (Unit {0})
  unprivileged environ c cs = do
    call os (wrap "tun cihazı oluşturma hatası") (new_tun (codes "tun"))
    call os (wrap "alt süreci başlatma hatası")
        (run_command (c ∷ cs) (environ ++ codes "PS1=HTTPTAP # " ∷ codes "HTTPTAP=1" ∷ []))

-- The outer process of unprivelged: the command that it runs, in namespaces of its own for users and
-- for the network, unless it is the inner one. The flag is that of the network.
unfoldable outer_process : Process → Option (Cmd × Bool)
outer_process p =
    if same p.name (codes "/proc/self/exe")
    then none
    else some (
      record {
        path = codes "/proc/self/exe";
        name = codes "/proc/self/exe";
        arguments = p.arguments;
        env = p.environ;
        new_user_namespace = true;
        uid_mappings = record { container_id = 0; host_id = p.uid; size = 1 } ∷ [];
        gid_mappings = record { container_id = 0; host_id = p.gid; size = 1 } ∷ [];
      },
      true,
    )
