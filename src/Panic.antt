-- ===== src/Panic.antt =====
-- panic.go: guvenliCalistir, which runs a function for a goroutine and reports how it ends, so that
-- a panic does not end the process.
use httptap.Shared.{Option, none, some, List, [], ◌∷◌, Text, Error}

-- How a function ends: with its result, or by a panic with a value.
pub data Ran : Type 0 where
  returned : Option Error → Ran
  panicked : Text → Ran

pub data LogLine : Type 0 where
  panic_line : Text → LogLine
  stack_line : LogLine
  error_line : Error → LogLine

-- The deferred panikYakala, where recover gives a value or nil.
unfoldable panik_yakala : Option Text → List LogLine
panik_yakala none = []
panik_yakala (some r) = panic_line r ∷ stack_line ∷ []

-- What is logged; the function itself returns in each case.
unfoldable guvenli_calistir : Ran → List LogLine
unfolding panik_yakala
guvenli_calistir (returned none) = panik_yakala none
guvenli_calistir (returned (some e)) = error_line e ∷ panik_yakala none
guvenli_calistir (panicked r) = panik_yakala (some r)
