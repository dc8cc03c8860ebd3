-- ===== src/Js.antt =====
-- JavaScript values that reach the program from outside: the parameters of an action, and what
-- the language's own `Number(…)` and `String(…)` make of them.
use sidestage_copilot.Prelude.{ℕ, String, Bool, Option, none, some, leb, if◌then◌else◌}
use sidestage_copilot.Prelude.Int.{ℤ, pos}

-- A number: amounts are whole cents and counts are whole units, so a finite number is whole.
pub data Num : Type 0 where
  nan infinite : Num
  whole : ℤ → Num

-- A parsed JSON value; an array or an object is kept as its text.
pub data Value : Type 0 where
  null : Value
  num : Num → Value
  text : String → Value
  flag : Bool → Value
  compound : String → Value

-- The parts of the language that the program calls and does not define.
pub record Runtime : Type 0 where
  pub number : Value → Num
  pub string : Value → String
  pub digits : ℕ → String
  pub sorts_before : String → String → Bool

-- The greatest value of Postgres' INTEGER.
abbrev pub int4_max : ℕ
int4_max = 2147483647

-- What an INTEGER column with `CHECK (… >= 0)` takes; `none` is a statement that throws.
unfoldable pub to_column : Num → Option ℕ
to_column (whole (pos n)) = if leb n int4_max then some n else none
to_column _ = none
