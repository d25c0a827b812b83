-- ===== src/Experiments/Runners/Anyway.antt =====
-- What experiments/setuid does after the switch of the user.
use httptap.Shared.{
  ℕ, ◌≡◌, refl, ◌∙◌, Option, none, some, List, [], ◌∷◌, ◌++◌, append_assoc, Text, codes, Error,
  wrap,
}
use httptap.System.{Trace, Os, answered, call, call_for, ◌>>◌}
use httptap.Experiments.Runners.{RunCall, set_gid, set_uid, start, wait_command, setuid}

module _ (os : Os RunCall) where
  -- The trace of a call, and of the wait if it succeeds.
  start_then_wait :
      (report : Error → Error) (c : RunCall) (tr : Trace RunCall)
      → (rest : Trace RunCall) × ((call os report c >> wait_command os) tr).0
          ≡ tr ++ (c, os tr c) ∷ rest
  unfolding call call_for
  start_then_wait report c tr = cases (os tr c)
    where
      cases :
          (a : Option Error)
          → (rest : Trace RunCall) × (((λ t. (tr ++ (c, a) ∷ [], answered report tt a))
                  >> wait_command os)
                tr).0
              ≡ tr ++ (c, a) ∷ rest
      cases none = (_, append_assoc tr ((c, none) ∷ []) _)
      cases (some e) = ([], refl)

  -- Whatever the two switches are answered, also where both fail, the next call of setuid starts
  -- the command, with the words of the command line.
  setuid_starts_anyway :
      (user group : ℕ) (c : Text) (cs : List Text) (tr : Trace RunCall)
      → (switched started : Option Error) × (rest : Trace RunCall) × ((setuid os user group c cs
            tr).0
          ≡ tr
            ++ (set_gid group, os tr (set_gid group))
              ∷ (set_uid user, switched)
              ∷ (start (c ∷ cs) (codes "PS1=SETUID # " ∷ codes "HTTPTAP=1" ∷ []), started)
              ∷ rest)
  unfolding setuid
  setuid_starts_anyway user group c cs tr =
      let tr' = tr ++ (set_gid group, os tr (set_gid group)) ∷ [] in
      let tr2 = tr' ++ (set_uid user, os tr' (set_uid user)) ∷ [] in
      let (rest, e) = start_then_wait (wrap "Alt süreç başlatılırken hata") _ tr2 in
      (
        os tr' (set_uid user),
        _,
        rest,
        e
            ∙ append_assoc tr' ((set_uid user, os tr' (set_uid user)) ∷ []) _
            ∙ append_assoc tr ((set_gid group, os tr (set_gid group)) ∷ []) _,
      )
