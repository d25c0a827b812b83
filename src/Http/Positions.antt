-- ===== src/Http/Positions.antt =====
-- The listeners of http.go by their place in the list: what becomes of one when all are closed, when
-- another is added or changed, and when one receives.
use mathlib.Core.Option.{some-injective}
use httptap.Shared.{
  ℕ, zero, suc, ◌≡◌, ◌≢◌, ◌⊎◌, inl, inr, refl, ap, sym, false, Option, none, some, List, [], ◌∷◌,
  ◌++◌, map, length, leb, arith,
}
use httptap.Http.{HttpCall, Listener, listener_at, change_at, take_one}

abbrev pub map_option : (Listener → Listener) → Option Listener → Option Listener
map_option f none = none
map_option f (some l) = some (f l)

pub listener_at-map :
    (f : Listener → Listener) (i : ℕ) (ls : List Listener)
    → listener_at i (map f ls) ≡ map_option f (listener_at i ls)
listener_at-map f i [] = refl
listener_at-map f zero (l ∷ ls) = refl
listener_at-map f (suc i) (l ∷ ls) = listener_at-map f i ls

-- Behind a map, each listener comes from one in its place.
pub listener_at-map_inv :
    (f : Listener → Listener) (i : ℕ) (ls : List Listener) (l : Listener)
    → listener_at i (map f ls) ≡ some l
    → (k : Listener) × (listener_at i ls ≡ some k) × (l ≡ f k)
listener_at-map_inv f i [] l e = absurd (ground arith)
listener_at-map_inv f zero (k ∷ ls) l e = (k, refl, sym (some-injective _ _ e))
listener_at-map_inv f (suc i) (k ∷ ls) l e = listener_at-map_inv f i ls l e

pub listener_at-append :
    (i : ℕ) (ls k : List Listener) (l : Listener)
    → listener_at i ls ≡ some l
    → listener_at i (ls ++ k) ≡ some l
listener_at-append i [] k l e = absurd (ground arith)
listener_at-append zero (x ∷ ls) k l e = e
listener_at-append (suc i) (x ∷ ls) k l e = listener_at-append i ls k l e

-- With one more at the end, a listener is one that was there, or that one.
pub listener_at-append_inv :
    (i : ℕ) (ls : List Listener) (n l : Listener)
    → listener_at i (ls ++ n ∷ []) ≡ some l
    → (listener_at i ls ≡ some l) ⊎ (l ≡ n)
listener_at-append_inv zero [] n l e = inr (sym (some-injective _ _ e))
listener_at-append_inv (suc i) [] n l e = absurd (ground arith)
listener_at-append_inv zero (x ∷ ls) n l e = inl e
listener_at-append_inv (suc i) (x ∷ ls) n l e = listener_at-append_inv i ls n l e

pub listener_at-end :
    (ls : List Listener) (l : Listener) → listener_at (length ls) (ls ++ l ∷ []) ≡ some l
listener_at-end [] l = refl
listener_at-end (x ∷ ls) l = listener_at-end ls l

-- Where the list has ended, nothing stands behind.
pub listener_at-past :
    (i j : ℕ) (ls : List Listener) (l : Listener)
    → listener_at i ls ≡ none
    → listener_at j ls ≡ some l
    → leb i j ≡ false
listener_at-past i j [] l h e = absurd (ground arith)
listener_at-past zero j (x ∷ ls) l h e = absurd (ground arith)
listener_at-past (suc i) zero (x ∷ ls) l h e = ground arith
listener_at-past (suc i) (suc j) (x ∷ ls) l h e = ground (arith, listener_at-past i j ls l h e)

pub change_at-other :
    (f : Listener → Listener) (i j : ℕ) (ls : List Listener)
    → j ≢ i
    → listener_at i (change_at j f ls) ≡ listener_at i ls
change_at-other f i j [] h = refl
change_at-other f zero zero (l ∷ ls) h = absurd (h refl)
change_at-other f (suc i) zero (l ∷ ls) h = refl
change_at-other f zero (suc j) (l ∷ ls) h = refl
change_at-other f (suc i) (suc j) (l ∷ ls) h = change_at-other f i j ls λ e. h (ap suc e)

pub change_at-same :
    (f : Listener → Listener) (i : ℕ) (ls : List Listener)
    → listener_at i (change_at i f ls) ≡ map_option f (listener_at i ls)
change_at-same f i [] = refl
change_at-same f zero (x ∷ ls) = refl
change_at-same f (suc i) (x ∷ ls) = change_at-same f i ls

-- Behind a change, a listener is one that stood in its place, or the changed one.
pub change_at-inv :
    (f : Listener → Listener) (i j : ℕ) (ls : List Listener) (l : Listener)
    → listener_at i (change_at j f ls) ≡ some l
    → ((j ≢ i) × (listener_at i ls ≡ some l))
      ⊎ ((k : Listener) × (j ≡ i) × (listener_at i ls ≡ some k) × (l ≡ f k))
change_at-inv f i j [] l e = absurd (ground arith)
change_at-inv f zero zero (x ∷ ls) l e = inr (x, refl, refl, sym (some-injective _ _ e))
change_at-inv f (suc i) zero (x ∷ ls) l e = inl (λ d. ground arith, e)
change_at-inv f zero (suc j) (x ∷ ls) l e = inl (λ d. ground arith, e)
change_at-inv f (suc i) (suc j) (x ∷ ls) l e = elim (change_at-inv f i j ls l e) [
  | inl h ↦ inl (λ d. h.0 (ground arith), h.1)
  | inr (k, d, at, is_l) ↦ inr (k, ap suc d, at, is_l)
]

pub take_one-history :
    (l : Listener) (items : List HttpCall) → (take_one l items).history ≡ l.history
take_one-history l [] = refl
take_one-history l (c ∷ cs) = refl
