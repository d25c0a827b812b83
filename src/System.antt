-- ===== src/System.antt =====
-- Calls of the operating system, in sequence: what the parts that set the system up have in common.
-- A call is made, it is answered by an error or not, and the answer may depend on all that happened
-- before. `C` is the type of the calls.
pub mod Files
pub mod Follows
pub mod Guarded
use httptap.Shared.{Option, none, some, List, [], ◌∷◌, ◌++◌, Error, Result, ok, err}

-- A call with its answer; what has happened, the latest last; what answers the calls.
abbrev pub Event : Type 0 → Type 0
Event C = C × Option Error

abbrev pub Trace : Type 0 → Type 0
Trace C = List (Event C)

abbrev pub Os : Type 0 → Type 0
Os C = Trace C → C → Option Error

abbrev pub M : Type 0 → Type 0 → Type 0
M C A = Trace C → Trace C × Result A

abbrev pub answered : {A : Type 0} → (Error → Error) → A → Option Error → Result A
answered report a none = ok a
answered report a (some e) = err (report e)

module _ {C : Type 0} where
  abbrev pub return : {A : Type 0} → A → M C A
  return a tr = (tr, ok a)

  -- `err := c; if err != nil { return report(err) }`, where the call gives the value `a`.
  unfoldable pub call_for : {A : Type 0} → Os C → (Error → Error) → C → (Trace C → A) → M C A
  call_for os report c a tr = (tr ++ (c, os tr c) ∷ [], answered report (a tr) (os tr c))

  unfoldable pub call : Os C → (Error → Error) → C → M C (Unit {0})
  unfolding call_for
  call os report c = call_for os report c (λ tr. tt)

  -- A call that cannot fail.
  unfoldable pub done : C → M C (Unit {0})
  done c tr = (tr ++ (c, none) ∷ [], ok tt)

  abbrev pub reported : {A : Type 0} → (Error → Error) → Trace C × Result A → Trace C × Result A
  reported report (tr, ok a) = (tr, ok a)
  reported report (tr, err e) = (tr, err (report e))

  -- `if err := m; err != nil { return report(err) }`.
  abbrev pub reporting : {A : Type 0} → (Error → Error) → M C A → M C A
  reporting report m tr = reported report (m tr)

  -- `defer c` before the rest of the function, whose result stays.
  abbrev pub deferring : {A : Type 0} → Os C → C → M C A → M C A
  deferring os c m tr = let (tr', r) = m tr in (tr' ++ (c, os tr' c) ∷ [], r)

infixl 5 ◌>>=◌ ◌>>◌
abbrev pub ◌>>=◌ : {C A B : Type 0} → M C A → (A → M C B) → M C B
◌>>=◌ m f tr = let (tr', r) = m tr in elim r [ ok a ↦ f a tr' | err e ↦ (tr', err e) ]

abbrev pub ◌>>◌ : {C B : Type 0} → M C (Unit {0}) → M C B → M C B
m >> k = m >>= λ _. k

-- `for _, a := range l { if err := f(a); err != nil { return err } }`.
unfoldable pub for_each : {C A : Type 0} → (A → M C (Unit {0})) → List A → M C (Unit {0})
for_each f [] = return tt
for_each f (a ∷ l) = f a >> for_each f l
