-- ===== src/Languages/Scores.antt =====
-- A finite number that is not negative, as every double is: an integer over a power of two.
use palancar.Base.{ℕ, ◌*◌, ◌^◌, Bool, leb}

pub record Score : Type 0 where
  pub numerator : ℕ
  pub exponent : ℕ

-- `value >= bound`
unfoldable pub at_least : Score → Score → Bool
at_least value bound =
    leb (bound.numerator * 2 ^ value.exponent) (value.numerator * 2 ^ bound.exponent)

abbrev pub one : Score
one = record { numerator = 1; exponent = 0 }
