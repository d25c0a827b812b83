-- ===== src/System/Guarded.antt =====
-- Calls that must not be made before another has succeeded.
use httptap.Shared.{
  ◌≡◌, refl, ap, sym, ◌∙◌, inl, inr, Bool, true, false, not, ◌&&◌, ◌||◌, if◌then◌else◌, Option,
  none, some, List, [], ◌∷◌, ◌++◌, Error, Result, All, arith,
}
use httptap.System.{Trace, M}
use httptap.System.Follows.{succeeded, Follows}

abbrev is_none : Option Error → Bool
is_none none = true
is_none (some e) = false

module _ {C : Type 0} (early late : C → Bool) where
  -- No late call is made unless an early one has succeeded, in the trace or, if `seen`, before it.
  unfoldable pub guarded : Bool → Trace C → Bool
  guarded seen [] = true
  guarded seen ((c, a) ∷ tr) =
      let rest = guarded (seen || (early c && is_none a)) tr in
      if late c && not seen then false else rest

  -- A run that stops early is guarded, if the whole plan is.
  pub guarded_prefix :
      (seen : Bool) (before : List C) (c : C) (after : List C) (e : Error)
      → guarded seen (succeeded (before ++ c ∷ after)) ≡ true
      → guarded seen (succeeded before ++ (c, some e) ∷ []) ≡ true
  unfolding guarded
  guarded_prefix seen [] c after e h = ground arith
  guarded_prefix seen (b ∷ before) c after e h =
      ground (arith, guarded_prefix (seen || (early b && true)) before c after e)

  -- Calls that are neither early nor late make no difference.
  abbrev pub IsNeutral : C → Type 0
  IsNeutral c = (early c ≡ false) × (late c ≡ false)

  pub guarded-neutral :
      (seen : Bool) (p q : List C)
      → All IsNeutral p
      → guarded seen (succeeded (p ++ q)) ≡ guarded seen (succeeded q)
  unfolding guarded
  guarded-neutral seen [] q h = refl
  guarded-neutral seen (c ∷ p) q h = ground (arith, h.0.0, h.0.1, guarded-neutral seen p q h.1)

-- What a run adds to the trace is guarded, wherever it stops, in each way in which its plan is.
pub Follows-guarded :
    {C A : Type 0} (tr : Trace C) (plan : List C) (a : A) (m : M C A)
    → Follows tr plan a m
    → (new : Trace C) × ((m tr).0 ≡ tr ++ new)
      × ((early late : C → Bool)
          → guarded early late false (succeeded plan) ≡ true
          → guarded early late false new ≡ true)
Follows-guarded {C} {A} tr plan a m (inl e) =
    (succeeded plan, ap (λ (x : Trace C × Result A). x.0) e, λ early late h. h)
Follows-guarded {C} {A} tr plan a m (inr s) = (
  succeeded s.before ++ (s.failed, some s.reason) ∷ [],
  ap (λ (x : Trace C × Result A). x.0) s.is_out,
  λ early late h.
      guarded_prefix early late false s.before s.failed s.after s.reason
        (ap (λ l. guarded early late false (succeeded l)) (sym s.is_plan) ∙ h),
)
