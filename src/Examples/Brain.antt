-- ===== src/Examples/Brain.antt =====
-- Runs of the governor on small inputs, with natural numbers for the floats.
use rato.Prelude.{ℕ, ◌+◌, ◌-◌, ◌/◌, min, ◌≤◌, List, [], ◌∷◌, String, arith, leb, filter, length}
use rato.Brain.Governor.{Float, admit_all, in_last_hour, new}
use rato.Brain.Governor.Window.{admit_all-cap}

abbrev pub small_float : Float
small_float = record {
  F = ℕ;
  of_nat = λ n. n;
  add = ◌+◌;
  sub = ◌-◌;
  div = ◌/◌;
  min = min;
  ge = λ a b. leb b a;
}

abbrev small_calls : List (String × ℕ)
small_calls = ("mentor", 10) ∷ ("chaos", 20) ∷ ("quiet", 20) ∷ ("mentor", 30) ∷ []

admit_all-cap_example :
    length (filter (in_last_hour 40) (admit_all small_float small_calls (new small_float)).1) ≤ 8
admit_all-cap_example =
    admit_all-cap small_float 0 40 small_calls
      (omega arith, (omega arith, (omega arith, (omega arith, tt)))) (omega arith)
