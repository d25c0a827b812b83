-- ===== src/Launch/Within.antt =====
-- Runs with deferred calls: what the planned calls have acquired is given back, in the opposite
-- order, wherever the run stops.
use mathlib.Core.Path.{subst}
use httptap.Shared.{
  ◌≡◌, refl, ap, sym, ◌∙◌, ◌⊎◌, inl, inr, Option, none, some, List, [], ◌∷◌, ◌++◌, append-nil,
  append_assoc, All, Error, Result, ok, err, Option-cases,
}
use httptap.System.{Trace, Os, M, answered, call_for, call, ◌>>◌, deferring}
use httptap.System.Follows.{succeeded, succeeded-append, Follows, Follows-call}
use httptap.Launch.{LaunchCall, make_tempdir, overlay_mount, remove_all, remove_overlay, World}

-- The calls of a trace.
abbrev pub calls : Trace LaunchCall → List LaunchCall
calls [] = []
calls ((c, a) ∷ tr) = c ∷ calls tr

calls-append : (t u : Trace LaunchCall) → calls (t ++ u) ≡ calls t ++ calls u
calls-append [] u = refl
calls-append ((c, a) ∷ t) u = ap (λ l. c ∷ l) (calls-append t u)

module _ (w : World) where
  -- The call that gives back what a call acquires.
  abbrev pub release : LaunchCall → List LaunchCall
  release make_tempdir = remove_all w.tempdir ∷ []
  release (overlay_mount gateway) = remove_overlay ∷ []
  release _ = []

  abbrev release_of : LaunchCall → Option Error → List LaunchCall
  release_of c none = release c
  release_of c (some e) = []

  -- What a trace has acquired and what gives it back, the latest first.
  abbrev pub due : Trace LaunchCall → List LaunchCall
  due [] = []
  due ((c, a) ∷ tr) = due tr ++ release_of c a

  abbrev pub AcquiresNone : LaunchCall → Type 0
  AcquiresNone c = release c ≡ []

  due-succeeded :
      (p : List LaunchCall) (t : Trace LaunchCall)
      → All AcquiresNone p
      → due (succeeded p ++ t) ≡ due t
  due-succeeded [] t h = refl
  due-succeeded (c ∷ p) t h =
      ap (λ l. due (succeeded p ++ t) ++ l) h.0 ∙ append-nil _ ∙ due-succeeded p t h.1

  All-first : (p q : List LaunchCall) → All AcquiresNone (p ++ q) → All AcquiresNone p
  All-first [] q h = tt
  All-first (c ∷ p) q h = (h.0, All-first p q h.1)

  -- The calls follow the plan, all or up to the first that fails.
  pub record Stops (plan : List LaunchCall) (new : Trace LaunchCall) : Type 0 where
    pub before : List LaunchCall
    pub failed : LaunchCall
    pub after : List LaunchCall
    pub reason : Error
    pub is_plan : plan ≡ before ++ failed ∷ after
    pub is_new : new ≡ succeeded before ++ (failed, some reason) ∷ []

  abbrev pub Runs : List LaunchCall → Trace LaunchCall → Type 0
  Runs plan new = (new ≡ succeeded plan) ⊎ Stops plan new

  -- What the run adds to the trace: planned calls, and then what gives back all they have acquired.
  pub record Within (tr : Trace LaunchCall) (plan : List LaunchCall) (m : M LaunchCall (Unit {0}))
      : Type 0 where
    pub new : Trace LaunchCall
    pub last : Trace LaunchCall
    pub is_trace : (m tr).0 ≡ tr ++ (new ++ last)
    pub runs : Runs plan new
    pub released : calls last ≡ due new

  Runs-after :
      (p q : List LaunchCall) (new : Trace LaunchCall)
      → Runs q new
      → Runs (p ++ q) (succeeded p ++ new)
  Runs-after p q new (inl e) = inl (ap (λ l. succeeded p ++ l) e ∙ sym (succeeded-append p q))
  Runs-after p q new (inr s) = inr (record {
    before = p ++ s.before;
    failed = s.failed;
    after = s.after;
    reason = s.reason;
    is_plan = ap (λ l. p ++ l) s.is_plan ∙ sym (append_assoc p s.before (s.failed ∷ s.after));
    is_new =
        ap (λ l. succeeded p ++ l) s.is_new
        ∙ sym (append_assoc (succeeded p) (succeeded s.before) ((s.failed, some s.reason) ∷ []))
        ∙ ap (λ l. l ++ (s.failed, some s.reason) ∷ []) (sym (succeeded-append p s.before));
  })

  abbrev resumed :
      M LaunchCall (Unit {0})
      → Trace LaunchCall × Result (Unit {0})
      → Trace LaunchCall × Result (Unit {0})
  resumed k x = elim x.1 [ ok y ↦ k x.0 | err z ↦ (x.0, err z) ]

  -- A run that does nothing, whatever it returns.
  pub Within-done :
      (tr : Trace LaunchCall) (m : M LaunchCall (Unit {0})) → (m tr).0 ≡ tr → Within tr [] m
  Within-done tr m e = record {
    new = [];
    last = [];
    is_trace = e ∙ sym (append-nil tr);
    runs = inl refl;
    released = refl;
  }

  module _ (tr : Trace LaunchCall) where
    -- A part that acquires nothing, and the rest of the run.
    pub Within->> :
        (p q : List LaunchCall) (m k : M LaunchCall (Unit {0}))
        → All AcquiresNone p
        → Follows tr p tt m
        → Within (tr ++ succeeded p) q k
        → Within tr (p ++ q) (m >> k)
    Within->> p q m k h (inl e) u = record {
      new = succeeded p ++ u.new;
      last = u.last;
      is_trace =
          ap (λ x. (resumed k x).0) e
          ∙ u.is_trace
          ∙ append_assoc tr (succeeded p) (u.new ++ u.last)
          ∙ ap (λ l. tr ++ l) (sym (append_assoc (succeeded p) u.new u.last));
      runs = Runs-after p q u.new u.runs;
      released = u.released ∙ sym (due-succeeded p u.new h);
    }
    Within->> p q m k h (inr s) u = record {
      new = succeeded s.before ++ (s.failed, some s.reason) ∷ [];
      last = [];
      is_trace = ap (λ x. (resumed k x).0) s.is_out ∙ ap (λ l. tr ++ l) (sym (append-nil _));
      runs = inr (record {
        before = s.before;
        failed = s.failed;
        after = s.after ++ q;
        reason = s.reason;
        is_plan = ap (λ l. l ++ q) s.is_plan ∙ append_assoc s.before (s.failed ∷ s.after) q;
        is_new = refl;
      });
      released = sym (
          due-succeeded s.before ((s.failed, some s.reason) ∷ [])
            (none_before s.before _ s.is_plan h));
    }
      where
        none_before : (b r : List LaunchCall) → p ≡ b ++ r → All AcquiresNone p → All AcquiresNone b
        none_before b r e a = All-first b r (subst (All AcquiresNone) e a)

    -- One call, and the rest of the run.
    pub Within-call :
        (os : Os LaunchCall) (report : Error → Error) (c : LaunchCall) (q : List LaunchCall)
        (k : M LaunchCall (Unit {0}))
        → release c ≡ []
        → Within (tr ++ (c, none) ∷ []) q k
        → Within tr (c ∷ q) (call os report c >> k)
    Within-call os report c q k h u =
        Within->> (c ∷ []) q (call os report c) k (h, tt) (Follows-call os report c tr) u

    -- The last part.
    pub Within-last :
        (p : List LaunchCall) (m : M LaunchCall (Unit {0}))
        → All AcquiresNone p
        → Follows tr p tt m
        → Within tr p m
    Within-last p m h f =
        let u = Within->> p [] m (λ t. (t, ok tt)) h f (Within-done _ (λ t. (t, ok tt)) refl) in
        record {
          new = u.new;
          last = u.last;
          is_trace = sym (trace_kept (m tr)) ∙ u.is_trace;
          runs = subst (λ l. Runs l u.new) (append-nil p) u.runs;
          released = u.released;
        }
      where
        trace_kept :
            (x : Trace LaunchCall × Result (Unit {0})) → (resumed (λ t. (t, ok tt)) x).0 ≡ x.0
        trace_kept (t, ok a) = refl
        trace_kept (t, err e) = refl

    -- A call that acquires something, whose release is deferred before the rest of the run.
    pub Within-deferring :
        (os : Os LaunchCall) (report : Error → Error) (c d : LaunchCall) (q : List LaunchCall)
        (k : M LaunchCall (Unit {0}))
        → release c ≡ d ∷ []
        → Within (tr ++ (c, none) ∷ []) q k
        → Within tr (c ∷ q) (call os report c >> deferring os d k)
    unfolding call call_for
    Within-deferring os report c d q k h u = elim (Option-cases (os tr c)) [
      | inl e ↦ record {
        new = (c, none) ∷ u.new;
        last = u.last ++ (d, os (k (tr ++ (c, none) ∷ [])).0 d) ∷ [];
        is_trace =
            ap (λ o. (resumed (deferring os d k) (tr ++ (c, o) ∷ [], answered report tt o)).0) e
            ∙ ap (λ l. l ++ (d, os (k (tr ++ (c, none) ∷ [])).0 d) ∷ []) u.is_trace
            ∙ append_assoc (tr ++ (c, none) ∷ []) (u.new ++ u.last) _
            ∙ append_assoc tr ((c, none) ∷ []) _
            ∙ ap (λ l. tr ++ (c, none) ∷ l) (append_assoc u.new u.last _);
        runs = Runs-after (c ∷ []) q u.new u.runs;
        released =
            calls-append u.last ((d, os (k (tr ++ (c, none) ∷ [])).0 d) ∷ [])
            ∙ ap (λ l. l ++ d ∷ []) u.released
            ∙ ap (λ l. due u.new ++ l) (sym h);
      }
      | inr (x, e) ↦ record {
        new = (c, some x) ∷ [];
        last = [];
        is_trace =
            ap (λ o. (resumed (deferring os d k) (tr ++ (c, o) ∷ [], answered report tt o)).0) e;
        runs = inr (record {
          before = [];
          failed = c;
          after = q;
          reason = x;
          is_plan = refl;
          is_new = refl;
        });
        released = refl;
      }
    ]
