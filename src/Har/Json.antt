-- ===== src/Har/Json.antt =====
-- The JSON of a Time and of a Duration in types.go of pkg/harlog. The format RFC 3339, the JSON of a
-- string and floating point are parameters.
use httptap.Shared.{
  ◌==◌, ◌≡◌, ◌∙◌, ap, ℤ, pos, refl, false, if◌then◌else◌, Text, codes, same, arith, Result, ok, err,
  zero, suc,
}
use httptap.Har.Types.{Time}

-- `format` gives the JSON text of a time, quotes included, and `parse` reads such a text.
pub record TimeFormat : Type 0 where
  pub format : Time → Text
  pub parse : Text → Result Time

module _ (f : TimeFormat) where
  unfoldable pub marshal_time : Time → Text
  marshal_time t = if t == 0 then codes "null" else f.format t

  -- The time that the pointer holds after it, and the error.
  abbrev pub parsed : Time → Result Time → Time × Result (Unit {0})
  parsed old (ok v) = (v, ok tt)
  parsed old (err e) = (old, err e)

  unfoldable pub unmarshal_time : Text → Time → Time × Result (Unit {0})
  unmarshal_time text old =
      if same text (codes "null") then (old, ok tt) else parsed old (f.parse text)

  -- A time whose text is read back as itself, and is not `null`, survives the round trip into a new
  -- variable; and so does the zero time.
  unmarshal_time-marshal_time :
      (t : Time)
      → f.parse (f.format t) ≡ ok t
      → same (f.format t) (codes "null") ≡ false
      → unmarshal_time (marshal_time t) 0 ≡ (t, ok tt)
  unfolding unmarshal_time marshal_time
  unmarshal_time-marshal_time zero h n = refl
  unmarshal_time-marshal_time (suc t) h n = ground (arith, h, n)

-- float64, with what the JSON of a duration needs of it: the conversions, of which that to an int64
-- truncates, the arithmetic, and the JSON of a number.
pub record Floats : Type 1 where
  pub Float : Type 0
  pub from_int : ℤ → Float
  pub to_int : Float → ℤ
  pub divide : Float → Float → Float
  pub times : Float → Float → Float
  pub marshal : Float → Result Text
  pub unmarshal : Text → Result Float

module _ (n : Floats) where
  -- time.Millisecond, in nanoseconds.
  abbrev millisecond : n.Float
  millisecond = n.from_int (pos 1000000)

  unfoldable marshal_duration : ℤ → Result Text
  marshal_duration d = n.marshal (n.divide (n.from_int d) millisecond)

  abbrev as_duration : ℤ → Result n.Float → ℤ × Result (Unit {0})
  as_duration old (ok v) = (n.to_int (n.times v millisecond), ok tt)
  as_duration old (err e) = (old, err e)

  unfoldable unmarshal_duration : Text → ℤ → ℤ × Result (Unit {0})
  unmarshal_duration text old =
      if same text (codes "null") then (old, ok tt) else as_duration old (n.unmarshal text)

  -- A duration survives the round trip into any variable, if its number of milliseconds does as a
  -- float64 and as JSON, which is not `null`.
  unmarshal_duration-marshal_duration :
      (d old : ℤ) (text : Text)
      → marshal_duration d ≡ ok text
      → same text (codes "null") ≡ false
      → n.unmarshal text ≡ ok (n.divide (n.from_int d) millisecond)
      → n.to_int (n.times (n.divide (n.from_int d) millisecond) millisecond) ≡ d
      → unmarshal_duration text old ≡ (d, ok tt)
  unfolding unmarshal_duration
  unmarshal_duration-marshal_duration d old text h k u e =
      ap (λ b. if b then (old, ok tt) else as_duration old (n.unmarshal text)) k
      ∙ ap (as_duration old) u
      ∙ ap (λ x. (x, ok tt)) e
