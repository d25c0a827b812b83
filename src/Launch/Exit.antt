-- ===== src/Launch/Exit.antt =====
-- How httptap ends: Main's wait for the subprocess and for its own second process, which it starts
-- in a new user namespace, and main.
use httptap.Shared.{
  ℕ, zero, suc, ◌≡◌, refl, Bool, true, false, Option, none, some, Error, error, wrap,
}

-- What Run or Wait reports of a process: no error, an ExitError with its code, or another error.
pub data Ended : Type 0 where
  finished : Ended
  exited : ℕ → Ended
  failed : Error → Ended

-- The end of Main, in the process that has started the subprocess.
unfoldable pub wait_result : Ended → Option Error
wait_result finished = none
wait_result (exited code) = some (error "subprocess exited with code")
wait_result (failed e) = some (wrap "error running subprocess" e)

-- main: log.Fatal exits with 1.
unfoldable pub exit_status : Option Error → ℕ
exit_status none = 0
exit_status (some e) = 1

-- The first process: os.Exit with the code of the second one, or the return of Main.
unfoldable pub relay : Ended → ℕ
unfolding exit_status
relay finished = exit_status none
relay (exited code) = code
relay (failed e) =
    exit_status (some (wrap "error re-executing ourselves in a new user namespace" e))

-- What Run reports of a process that has exited with the status.
abbrev pub ended_with : ℕ → Ended
ended_with zero = finished
ended_with (suc n) = exited (suc n)

-- The exit status that the caller of httptap sees, with or without the second process.
abbrev pub whole_status : Bool → Ended → ℕ
whole_status true e = relay (ended_with (exit_status (wait_result e)))
whole_status false e = exit_status (wait_result e)

abbrev pub success_or_one : Ended → ℕ
success_or_one finished = 0
success_or_one _ = 1

-- Whether httptap starts a second process or not, and however its subprocess ends, it exits with 0
-- if the subprocess has succeeded, and else with 1: the code of the subprocess is lost.
pub exit_code_lost :
    (re_executed : Bool) (e : Ended) → whole_status re_executed e ≡ success_or_one e
unfolding wait_result exit_status relay
exit_code_lost true finished = refl
exit_code_lost true (exited code) = refl
exit_code_lost true (failed e) = refl
exit_code_lost false finished = refl
exit_code_lost false (exited code) = refl
exit_code_lost false (failed e) = refl
