-- ===== src/Base/Values.antt =====
-- A JavaScript value of unknown type, as far as the models tell values apart.
use palancar.Base.Texts.{Text}
use Prim.Native.Nat.{ℕ, ◌-◌, ◌^◌}

-- `nat n` is the number n, `minus n` the number -(n + 1), `fraction` any other number (NaN and the
-- infinities too), `other` anything that is neither a number nor a string (`undefined` too).
pub data Value : Type 0 where
  nat minus : ℕ → Value
  fraction : Value
  text : Text → Value
  other : Value

-- Number.MAX_SAFE_INTEGER
abbrev pub max_safe_integer : ℕ
max_safe_integer = 2 ^ 53 - 1
