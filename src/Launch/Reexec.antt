-- ===== src/Launch/Reexec.antt =====
-- The beginning of Main of httptap.go: the defaults of its arguments, and the second process, by
-- which it gets into a user namespace. The parser of arguments and the kernel are parameters.
use httptap.Shared.{
  ℕ, zero, suc, ◌≡◌, refl, ap, ap₂, ◌∙◌, Bool, true, false, not, ◌&&◌, if◌then◌else◌, Option, none,
  some, List, [], ◌∷◌, Text, codes, same, same_refl, Bool-cases, Option-cases, inl, inr, arith,
}

-- A process: os.Args, of which the first is its name, os.Environ, and its user and group as it
-- sees them.
pub record Process : Type 0 where
  pub name : Text
  pub arguments : List Text
  pub environ : List Text
  pub uid : ℕ
  pub gid : ℕ

-- syscall.SysProcIDMap.
pub record IdMap : Type 0 where
  pub container_id : ℕ
  pub host_id : ℕ
  pub size : ℕ

-- The fields of exec.Cmd and of its SysProcAttr that Main sets.
pub record Cmd : Type 0 where
  pub path : Text
  pub name : Text
  pub arguments : List Text
  pub env : List Text
  pub new_user_namespace : Bool
  pub uid_mappings : List IdMap
  pub gid_mappings : List IdMap

-- The arguments that Main gives a value of its own, or reads before the set-up.
pub record Options : Type 0 where
  pub no_new_user_namespace : Bool
  pub http_ports : List ℕ
  pub https_ports : List ℕ
  pub command : List Text

-- What stands in `args` before arg.MustParse.
abbrev pub preset : Options
preset = record {
  no_new_user_namespace = false;
  http_ports = 80 ∷ [];
  https_ports = 443 ∷ [];
  command = [];
}

abbrev self_exe : Text
self_exe = codes "/proc/self/exe"

-- `if len(args.Command) == 0 { args.Command = []string{"/bin/sh"} }`.
abbrev pub command_or_shell : List Text → List Text
command_or_shell [] = codes "/bin/sh" ∷ []
command_or_shell (c ∷ cs) = c ∷ cs

abbrev with_shell : Options → Options
with_shell o = record o { command = command_or_shell o.command }

-- The command that Main runs to get into a new user namespace.
unfoldable pub second_process : Process → Cmd
second_process p = record {
  path = self_exe;
  name = self_exe;
  arguments = p.arguments;
  env = p.environ;
  new_user_namespace = true;
  uid_mappings = record { container_id = 0; host_id = p.uid; size = 1 } ∷ [];
  gid_mappings = record { container_id = 0; host_id = p.gid; size = 1 } ∷ [];
}

-- What Main does first: it stops with a usage message, runs the second process, or goes on.
pub data Beginning : Type 0 where
  usage : Beginning
  re_executes : Cmd → Beginning
  sets_up : Options → Beginning

-- arg.MustParse, which stops the process where this has no value; what the kernel starts for a
-- command.
pub record Surroundings : Type 0 where
  pub parse : Options → List Text → List Text → Option Options
  pub start : Process → Cmd → Process

module _ (w : Surroundings) where
  abbrev begin_with : Process → Option Options → Beginning
  begin_with p none = usage
  begin_with p (some o) =
      if not (same p.name self_exe) && not o.no_new_user_namespace
      then re_executes (second_process p)
      else sets_up (with_shell o)

  unfoldable begin_main : Process → Beginning
  unfolding second_process
  begin_main p = begin_with p (w.parse preset p.arguments p.environ)

  abbrev followed :
      Process → (Cmd → Option (Process × Beginning)) → Beginning → Option (Process × Beginning)
  followed p next usage = some (p, usage)
  followed p next (re_executes c) = next c
  followed p next (sets_up o) = some (p, sets_up o)

  -- A process and those that it starts of itself, `n` at most: how the last one begins.
  unfoldable pub run_main : ℕ → Process → Option (Process × Beginning)
  unfolding begin_main
  run_main zero p = none
  run_main (suc n) p = followed p (λ c. run_main n (w.start p c)) (begin_main p)

-- What the kernel promises of a command: the process has the command's name, arguments and
-- environment, and in a new namespace its user is the one that the only mapping names.
pub record Starts (w : Surroundings) : Type 0 where
  pub keeps_name : (p : Process) (c : Cmd) → (w.start p c).name ≡ c.name
  pub keeps_arguments : (p : Process) (c : Cmd) → (w.start p c).arguments ≡ c.arguments
  pub keeps_environ : (p : Process) (c : Cmd) → (w.start p c).environ ≡ c.env
  pub maps_uid :
      (p : Process) (c : Cmd) (m : IdMap)
      → c.new_user_namespace ≡ true
      → c.uid_mappings ≡ m ∷ []
      → m.host_id ≡ p.uid
      → (w.start p c).uid ≡ m.container_id

-- How a process must begin that is given the options: with them and a command, or with a usage
-- message.
abbrev pub as_parsed : Option Options → Beginning
as_parsed none = usage
as_parsed (some o) = sets_up (with_shell o)

-- Whether the options let the process set up as the user that it is started by.
abbrev pub stays : Option Options → Bool
stays none = true
stays (some o) = o.no_new_user_namespace

module _ (w : Surroundings) where
  abbrev options_of : Process → Option Options
  options_of p = w.parse preset p.arguments p.environ

  -- A process that has the name of the second one sets up at once.
  run_main-second :
      (n : ℕ) (q : Process)
      → q.name ≡ self_exe
      → run_main w (suc n) q ≡ some (q, as_parsed (options_of q))
  unfolding run_main
  run_main-second n q e =
      let named : same q.name self_exe ≡ true = ap (λ t. same t self_exe) e ∙ same_refl self_exe in
      elim (Option-cases (options_of q)) [
        | inl none_is ↦ ground (arith, named)
        | inr (o, some_is) ↦ ground (arith, named)
      ]

  -- A process of another name than `/proc/self/exe` starts at most one process of itself, which
  -- starts no further one: the last of the two begins with the set-up, by the options that the
  -- arguments and the environment of the first one give and with a command, or with the usage
  -- message where these cannot be parsed; and its user is 0, unless the options are to stay in the
  -- namespace or cannot be parsed.
  pub run_main_ends :
      (p : Process)
      → Starts w
      → same p.name self_exe ≡ false
      → (q : Process) × (run_main w 2 p ≡ some (q, as_parsed (options_of p)))
        × (stays (options_of p) ≡ false → q.uid ≡ 0)
  unfolding run_main
  run_main_ends p k h = elim (Option-cases (options_of p)) [
    | inl none_is ↦ (p, ground (arith, none_is), λ e. ground (arith, none_is))
    | inr (o, some_is) ↦ elim (Bool-cases o.no_new_user_namespace) [
      | inl stay ↦ (p, ground (arith, some_is, stay), λ e. ground (arith, some_is, stay))
      | inr move ↦
          let c = second_process p in
          let q = w.start p c in
          let same_options : options_of q ≡ options_of p =
            ap₂ (λ a b. w.parse preset a b) (k.keeps_arguments p c) (k.keeps_environ p c) in
          let begun : begin_main w p ≡ re_executes c = ground (arith, some_is, move, h) in
          let ran : run_main w 1 q ≡ some (q, as_parsed (options_of q)) =
            run_main-second 0 q (k.keeps_name p c) in
          (
            q,
            ap (followed w p (λ d. run_main w 1 (w.start p d))) begun
                ∙ ran
                ∙ ap (λ r. some (q, as_parsed r)) same_options,
            λ e. k.maps_uid p c _ refl refl refl,
          )
    ]
  ]
