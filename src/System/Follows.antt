-- ===== src/System/Follows.antt =====
-- A sequence of calls follows a plan: it makes the planned calls in their order, and stops at the
-- first one that fails.
use httptap.Shared.{
  ◌≡◌, refl, ap, sym, ◌∙◌, ◌⊎◌, inl, inr, none, some, List, [], ◌∷◌, ◌++◌, append-nil, append_assoc,
  Error, Result, ok, err, Option-cases,
}
use httptap.System.{
  Trace, Os, M, answered, return, call_for, call, done, reported, reporting, ◌>>=◌, for_each,
}

module _ {C : Type 0} where
  abbrev pub succeeded : List C → Trace C
  succeeded [] = []
  succeeded (c ∷ cs) = (c, none) ∷ succeeded cs

  pub succeeded-append : (p q : List C) → succeeded (p ++ q) ≡ succeeded p ++ succeeded q
  succeeded-append [] q = refl
  succeeded-append (c ∷ p) q = ap (λ l. (c, none) ∷ l) (succeeded-append p q)

  -- The outcome of a run that stops at a failure.
  pub record Stopped {A : Type 0} (tr : Trace C) (plan : List C) (out : Trace C × Result A)
      : Type 0 where
    pub before : List C
    pub failed : C
    pub after : List C
    pub reason : Error
    pub answer : Error
    pub is_plan : plan ≡ before ++ failed ∷ after
    pub is_out : out ≡ (tr ++ (succeeded before ++ (failed, some reason) ∷ []), err answer)

  -- From the trace `tr`, the run makes all the planned calls and returns `a`, or stops.
  abbrev pub Follows : {A : Type 0} → Trace C → List C → A → M C A → Type 0
  Follows tr plan a m = (m tr ≡ (tr ++ succeeded plan, ok a)) ⊎ Stopped tr plan (m tr)

  pub Follows-return : {A : Type 0} (tr : Trace C) (a : A) → Follows tr [] a (return a)
  Follows-return tr a = inl (ap (λ t. (t, ok a)) (sym (append-nil tr)))

  pub Follows-call_for :
      {A : Type 0} (os : Os C) (report : Error → Error) (c : C) (a : Trace C → A) (tr : Trace C)
      → Follows tr (c ∷ []) (a tr) (call_for os report c a)
  unfolding call_for
  Follows-call_for os report c a tr = elim (Option-cases (os tr c)) [
    | inl h ↦ inl (ap (λ x. (tr ++ (c, x) ∷ [], answered report (a tr) x)) h)
    | inr (e, h) ↦ inr (record {
      before = [];
      failed = c;
      after = [];
      reason = e;
      answer = report e;
      is_plan = refl;
      is_out = ap (λ x. (tr ++ (c, x) ∷ [], answered report (a tr) x)) h;
    })
  ]

  pub Follows-call :
      (os : Os C) (report : Error → Error) (c : C) (tr : Trace C)
      → Follows tr (c ∷ []) tt (call os report c)
  unfolding call
  Follows-call os report c tr = Follows-call_for os report c (λ t. tt) tr

  pub Follows-done : (c : C) (tr : Trace C) → Follows tr (c ∷ []) tt (done c)
  unfolding done
  Follows-done c tr = inl refl

  pub Follows-reporting :
      {A : Type 0} (report : Error → Error) (tr : Trace C) (plan : List C) (a : A) (m : M C A)
      → Follows tr plan a m
      → Follows tr plan a (reporting report m)
  Follows-reporting report tr plan a m (inl e) = inl (ap (reported report) e)
  Follows-reporting report tr plan a m (inr s) = inr (record {
    before = s.before;
    failed = s.failed;
    after = s.after;
    reason = s.reason;
    answer = report s.answer;
    is_plan = s.is_plan;
    is_out = ap (reported report) s.is_out;
  })

  module _ {A B : Type 0} (tr : Trace C) (p q : List C) (a : A) (b : B) (m : M C A)
      (f : A → M C B) where
    regroup : (tr ++ succeeded p) ++ succeeded q ≡ tr ++ succeeded (p ++ q)
    regroup =
        append_assoc tr (succeeded p) (succeeded q) ∙ ap (λ l. tr ++ l) (sym (succeeded-append p q))

    Follows-second :
        m tr ≡ (tr ++ succeeded p, ok a)
        → Follows (tr ++ succeeded p) q b (f a)
        → Follows tr (p ++ q) b (m >>= f)
    Follows-second e (inl h) = inl (
        ap (λ (x : Trace C × Result A). elim x.1 [ ok y ↦ f y x.0 | err z ↦ (x.0, err z) ]) e
        ∙ h
        ∙ ap (λ t. (t, ok b)) regroup)
    Follows-second e (inr s) = inr (record {
      before = p ++ s.before;
      failed = s.failed;
      after = s.after;
      reason = s.reason;
      answer = s.answer;
      is_plan = ap (λ l. p ++ l) s.is_plan ∙ sym (append_assoc p s.before (s.failed ∷ s.after));
      is_out =
          ap (λ (x : Trace C × Result A). elim x.1 [ ok y ↦ f y x.0 | err z ↦ (x.0, err z) ]) e
          ∙ s.is_out
          ∙ ap (λ t. (t, err s.answer))
              (append_assoc tr (succeeded p) (succeeded s.before ++ (s.failed, some s.reason) ∷ [])
                ∙ ap (λ l. tr ++ l)
                    (sym (
                        append_assoc (succeeded p) (succeeded s.before)
                          ((s.failed, some s.reason) ∷ []))
                      ∙ ap (λ l. l ++ (s.failed, some s.reason) ∷ [])
                          (sym (succeeded-append p s.before))));
    })

    -- One part after the other.
    pub Follows->>= :
        Follows tr p a m → Follows (tr ++ succeeded p) q b (f a) → Follows tr (p ++ q) b (m >>= f)
    Follows->>= (inl e) k = Follows-second e k
    Follows->>= (inr s) k = inr (record {
      before = s.before;
      failed = s.failed;
      after = s.after ++ q;
      reason = s.reason;
      answer = s.answer;
      is_plan = ap (λ l. l ++ q) s.is_plan ∙ append_assoc s.before (s.failed ∷ s.after) q;
      is_out =
          ap (λ (x : Trace C × Result A). elim x.1 [ ok y ↦ f y x.0 | err z ↦ (x.0, err z) ])
            s.is_out;
    })

  -- The plan of a loop.
  abbrev pub concat_map : {A : Type 0} → (A → List C) → List A → List C
  concat_map f [] = []
  concat_map f (a ∷ l) = f a ++ concat_map f l

  pub Follows-for_each :
      {A : Type 0} (plan : A → List C) (f : A → M C (Unit {0}))
      → ((a : A) (tr : Trace C) → Follows tr (plan a) tt (f a))
      → (l : List A) (tr : Trace C) → Follows tr (concat_map plan l) tt (for_each f l)
  unfolding for_each
  Follows-for_each plan f h [] tr = Follows-return tr tt
  Follows-for_each plan f h (a ∷ l) tr =
      Follows->>= tr (plan a) (concat_map plan l) tt tt (f a) (λ _. for_each f l) (h a tr)
        (Follows-for_each plan f h l (tr ++ succeeded (plan a)))

-- A run together with the proof that it follows a plan. The combinators build both at once, so that
-- a `do` block needs no run written twice.
pub record Planned {C B : Type 0} (tr : Trace C) (plan : List C) (b : B) : Type 0 where
  pub run : M C B
  pub follows : Follows tr plan b run

module _ {C : Type 0} {tr : Trace C} where
  abbrev pub planned_bind :
      {A B : Type 0} {p q : List C} {a : A} {b : B}
      → Planned tr p a
      → (f : A → M C B) → Follows (tr ++ succeeded p) q b (f a)
      → Planned tr (p ++ q) b
  planned_bind {p} {q} {a} {b} m f k = record {
    run = m.run >>= f;
    follows = Follows->>= tr p q a b m.run f m.follows k;
  }

  infixr 5 ◌then◌
  abbrev pub ◌then◌ :
      {B : Type 0} {p q : List C} {b : B}
      → Planned tr p tt
      → Planned (tr ++ succeeded p) q b
      → Planned tr (p ++ q) b
  m then k = planned_bind m (λ _. k.run) k.follows

  abbrev pub planned_call : (os : Os C) (report : Error → Error) (c : C) → Planned tr (c ∷ []) tt
  planned_call os report c = record {
    run = call os report c;
    follows = Follows-call os report c tr;
  }

  abbrev pub planned_done : (c : C) → Planned tr (c ∷ []) tt
  planned_done c = record { run = done c; follows = Follows-done c tr }

  abbrev pub planned_return : {B : Type 0} (b : B) → Planned tr [] b
  planned_return b = record { run = return b; follows = Follows-return tr b }

  abbrev pub planned_for_each :
      {A : Type 0} (plan : A → List C) (f : A → M C (Unit {0}))
      → ((a : A) (t : Trace C) → Follows t (plan a) tt (f a))
      → (l : List A) → Planned tr (concat_map plan l) tt
  planned_for_each plan f h l = record {
    run = for_each f l;
    follows = Follows-for_each plan f h l tr;
  }
