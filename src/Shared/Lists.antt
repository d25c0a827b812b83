-- ===== src/Shared/Lists.antt =====
-- Lists measured by native numbers, predicates on all elements, and texts cut at a separator.
use Prim.Native.Nat.{ℕ, zero, suc, ◌+◌}
use mathlib.Core.Path.{◌≡◌, refl}
use mathlib.Core.Logic.{◌≢◌}
use mathlib.Core.List.{List, [], ◌∷◌, ◌++◌}
use native.Mathlib.Omega.{arith}

module _ {ℓ} {A : Type ℓ} where
  abbrev pub length : List A → ℕ
  length [] = 0
  length (x ∷ xs) = suc (length xs)

  abbrev pub drop : ℕ → List A → List A
  drop zero xs = xs
  drop (suc n) [] = []
  drop (suc n) (x ∷ xs) = drop n xs

  pub length-append : (xs ys : List A) → length (xs ++ ys) ≡ length xs + length ys
  length-append [] ys = omega arith
  length-append (x ∷ xs) ys = omega (arith, length-append xs ys)

  abbrev pub All {κ} : (A → Type κ) → List A → Type κ
  All P [] = Unit
  All P (first ∷ rest) = P first × All P rest

  pub All-append {κ} :
      (P : A → Type κ) (before after : List A)
      → All P before
      → All P after
      → All P (before ++ after)
  All-append P [] after h k = k
  All-append P (first ∷ rest) after h k = (h.0, All-append P rest after h.1 k)

  pub All-map {κ μ} :
      (P : A → Type κ) (Q : A → Type μ) (xs : List A) → ((x : A) → P x → Q x) → All P xs → All Q xs
  All-map P Q [] f h = tt
  All-map P Q (x ∷ xs) f h = (f x h.0, All-map P Q xs f h.1)

-- A text with no separator in it is determined by what stands before the first separator.
pub append_cut :
    (sep : ℕ) (xs xs' ys ys' : List ℕ)
    → All (λ c. c ≢ sep) xs
    → All (λ c. c ≢ sep) xs'
    → xs ++ sep ∷ ys ≡ xs' ++ sep ∷ ys'
    → (xs ≡ xs') × (ys ≡ ys')
append_cut sep [] [] ys ys' h h' e = (refl, cc)
append_cut sep [] (x' ∷ xs') ys ys' h h' e = absurd (h'.0 (cc))
append_cut sep (x ∷ xs) [] ys ys' h h' e = absurd (h.0 (cc))
append_cut sep (x ∷ xs) (x' ∷ xs') ys ys' h h' e =
    let (p, q) = append_cut sep xs xs' ys ys' h.1 h'.1 (cc) in (cc, q)
