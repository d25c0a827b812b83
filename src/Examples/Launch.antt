-- ===== src/Examples/Launch.antt =====
-- The theorems on the set-up, for a run as another user that fails to switch to it.
use httptap.Shared.{◌≡◌, ap, refl, false, true, none, some, [], ◌∷◌, ◌++◌, All, codes, error}
use httptap.System.{Os}
use httptap.Launch.{LaunchCall, set_uid, Args, World, env, ca_path}
use httptap.Launch.Exit.{exited, whole_status, exit_code_lost}
use httptap.Launch.Env.{getenv, ca_variables, env_names_authority}
use httptap.Launch.Reexec.{
  Process, Cmd, Surroundings, Starts, preset, run_main, as_parsed, stays, run_main_ends,
}

abbrev os : Os LaunchCall
os tr (set_uid id) = some (error "operation not permitted")
os tr _ = none

abbrev world : World
world = record {
  tempdir = codes "/tmp/1";
  etc_is_directory = true;
  uid_of = λ user. codes "33";
  gid_of = λ user. codes "33";
  atoi = λ t. 33;
  environ = codes "SSL_CERT_FILE=/etc/ssl/cert.pem" ∷ [];
  cert_file_env = codes "SSL_CERT_FILE";
  cert_dir_env = codes "SSL_CERT_DIR";
  join = λ a b. a ++ (b'/' ∷ b);
  to_lower = λ t. t;
}

abbrev args : Args
args = record {
  tun = codes "httptap";
  subnet = codes "10.1.1.100/24";
  gateway = codes "10.1.1.1";
  user = codes "www-data";
  no_overlay = false;
  stack = codes "homegrown";
  dump_tcp = false;
  command = codes "/bin/sh" ∷ [];
}

env_names_authority_example :
    All (λ name. getenv name (env os world args) ≡ some (ca_path os world args)) ca_variables
env_names_authority_example =
    env_names_authority os world args refl refl (refl, (refl, (refl, (refl, (refl, tt)))))

exit_code_lost_example : whole_status true (exited 42) ≡ 1
exit_code_lost_example = exit_code_lost true (exited 42)

abbrev shell : Process
shell = record {
  name = codes "httptap";
  arguments = codes "ls" ∷ [];
  environ = [];
  uid = 1000;
  gid = 1000;
}

abbrev as_root : Process → Cmd → Process
as_root p c = record {
  name = c.name;
  arguments = c.arguments;
  environ = c.env;
  uid = elim c.uid_mappings [ [] ↦ 65534 | m ∷ ms ↦ m.container_id ];
  gid = elim c.gid_mappings [ [] ↦ 65534 | m ∷ ms ↦ m.container_id ];
}

abbrev surroundings : Surroundings
surroundings = record {
  parse = λ o arguments environ. some (record o { command = arguments });
  start = as_root;
}

surroundings-Starts : Starts surroundings
surroundings-Starts = record {
  keeps_name = λ p c. refl;
  keeps_arguments = λ p c. refl;
  keeps_environ = λ p c. refl;
  maps_uid = λ p c m h e k. ap (λ l. elim l [ [] ↦ 65534 | x ∷ xs ↦ x.container_id ]) e;
}

run_main_ends_example :
    (q : Process) × (run_main surroundings 2 shell
      ≡ some (q, as_parsed (surroundings.parse preset shell.arguments shell.environ)))
    × (stays (surroundings.parse preset shell.arguments shell.environ) ≡ false → q.uid ≡ 0)
run_main_ends_example = run_main_ends surroundings shell surroundings-Starts refl
