-- ===== src/Shared/Fail.antt =====
-- Go's `error`, and the pair of a value and an error of which one is meaningful.
use Prim.Native.String.{String}

-- A message, an error wrapped under a message (`%w`), and the sentinel `io.EOF`.
pub data Error : Type 0 where
  error : String → Error
  wrap : String → Error → Error
  eof : Error

-- What a Go function returns as `(A, error)`.
pub data Result {ℓ} (A : Type ℓ) : Type ℓ where
  err : Error → Result A
  ok : A → Result A

-- `if err != nil { return …, err }`, and then the rest.
infixl 5 ◌>>=◌
abbrev pub ◌>>=◌ {ℓ κ} : {A : Type ℓ} {B : Type κ} → Result A → (A → Result B) → Result B
err failure >>= rest = err failure
ok value >>= rest = rest value
