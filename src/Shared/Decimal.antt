-- ===== src/Shared/Decimal.antt =====
-- `strconv.Itoa` on natural numbers, and the bytes of a text.
use Prim.Native.Nat.{ℕ, zero, suc, ◌+◌, ◌-◌, ◌*◌, ◌/◌, ◌%◌, ◌≤◌, ◌<◌}
use Prim.Native.Char.{code}
use Prim.Native.String.{String}
use mathlib.Core.Path.{◌≡◌, refl, ap, sym, ◌∙◌}
use mathlib.Core.Logic.{inl, inr}
use mathlib.Core.List.{List, [], ◌∷◌, ◌++◌}
use native.Mathlib.Omega.{arith}
use httptap.Shared.Tests.{ltb, if◌then◌else◌, Bool-cases}
use httptap.Shared.Lists.{All, All-append}

-- A Go string, as its bytes.
abbrev pub Text : Type 0
Text = List ℕ

-- The bytes of an ASCII literal.
abbrev pub codes : String → Text
codes String.[] = []
codes (String.◌∷◌ c s) = code c ∷ codes s

-- The decimal digits of `n`, most significant first; `fuel` above `n` is enough.
unfoldable pub digits : ℕ → ℕ → Text
digits zero n = []
digits (suc fuel) n =
    let rest = digits fuel (n / 10) ++ (48 + n % 10) ∷ [] in
    if ltb n 10 then (48 + n) ∷ [] else rest

unfoldable pub itoa : ℕ → Text
unfolding digits
itoa n = digits (suc n) n

-- The number that a text of digits stands for, from the left.
pub value : ℕ → Text → ℕ
value acc [] = acc
value acc (c ∷ cs) = value (acc * 10 + (c - 48)) cs

value-append :
    (acc : ℕ) (cs : Text) (d : ℕ) → value acc (cs ++ d ∷ []) ≡ value acc cs * 10 + (d - 48)
unfolding value
value-append acc [] d = refl
value-append acc (c ∷ cs) d = value-append (acc * 10 + (c - 48)) cs d

digits_value : (fuel n : ℕ) → n < fuel → value 0 (digits fuel n) ≡ n
unfolding digits
digits_value zero n h = elim h [ ]
digits_value (suc fuel) n h = elim (Bool-cases (ltb n 10)) [
  | inl small ↦ rw small (unfold value in omega arith)
  | inr large ↦ rw large (
      value-append 0 (digits fuel (n / 10)) (48 + n % 10)
      ∙ ground (arith, digits_value fuel (n / 10)))
]

-- Reading a printed number back gives the number.
pub itoa_value : (n : ℕ) → value 0 (itoa n) ≡ n
unfolding itoa
itoa_value n = digits_value (suc n) n (omega arith)

pub itoa-injective : (m n : ℕ) → itoa m ≡ itoa n → m ≡ n
itoa-injective m n e = sym (itoa_value m) ∙ ap (value 0) e ∙ itoa_value n

abbrev pub IsDigit : ℕ → Type 0
IsDigit c = (48 ≤ c) × (c ≤ 57)

digits-All-IsDigit : (fuel n : ℕ) → All IsDigit (digits fuel n)
unfolding digits
digits-All-IsDigit zero n = tt
digits-All-IsDigit (suc fuel) n = elim (Bool-cases (ltb n 10)) [
  | inl small ↦ rw small ((omega arith, ground arith), tt)
  | inr large ↦ rw large (
      All-append IsDigit (digits fuel (n / 10)) ((48 + n % 10) ∷ [])
        (digits-All-IsDigit fuel (n / 10)) ((omega arith, omega arith), tt))
]

pub itoa-All-IsDigit : (n : ℕ) → All IsDigit (itoa n)
unfolding itoa
itoa-All-IsDigit n = digits-All-IsDigit (suc n) n
