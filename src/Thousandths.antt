-- ===== src/Thousandths.antt =====
-- A concrete stand-in for Rust's `f64`, for runs on concrete inputs: thousandths, rounded down.
use agentme.Prelude.{ℕ, ◌+◌, ◌*◌, ◌/◌, ◌-◌, ◌^◌, min, max, leb, ltb}
use agentme.Float.{F64, F64Math}

abbrev per_mille : ℕ → ℕ → ℕ
per_mille a b = a * 1000 / b

instance abbrev pub thousandths : F64 ℕ
thousandths = record {
  zero = 0;
  one = 1000;
  tenth = 100;
  nine_tenths = 900;
  from_u64 = λ n. n * 1000;
  to_u64 = λ a. a / 1000;
  sum = λ a b. a + b;
  product = λ a b. a * b / 1000;
  quotient = per_mille;
  clamp = λ a low high. min (max a low) high;
  at_least = λ a b. leb b a;
}

-- The root is left out of the runs: it stands for itself.
instance abbrev pub thousandths_math : F64Math ℕ
thousandths_math = record {
  base = thousandths;
  literal = λ n d. per_mille n d;
  difference = λ a b. a - b;
  root = λ a. a;
  lesser = λ a b. min a b;
  magnitude = λ a. a;
  power = λ a n. a ^ n / 1000 ^ (n - 1);
  less = ltb;
}
