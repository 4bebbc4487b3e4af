-- ===== src/Externs/FixedPoint.antt =====
-- The external types as concrete functions: amounts in units of 1/10000, and times in seconds. The
-- examples run on them.
use feynman_engine.Prelude.{ℕ, ◌*◌, ◌-◌, ◌^◌, refl, String}
use feynman_engine.Prelude.Int.{ℤ, pos, ◌+ℤ◌, ◌-ℤ◌, ◌*ℤ◌, neg_ℤ, abs_ℤ, quot_ℤ, ltb_ℤ, ltb_ℤ_iff}
use feynman_engine.Prelude.Text.{◌++◌, show_ℕ, show_ℤ}
use feynman_engine.Externs.{Externs, ExactArithmetic}

abbrev pub fixed_point : Externs
fixed_point = record {
  Decimal = ℤ;
  zero_dec = pos 0;
  literal = λ mantissa scale. mantissa *ℤ pos (10 ^ (4 - scale));
  from_u32 = λ n. pos (n * 10000);
  add = ◌+ℤ◌;
  sub = ◌-ℤ◌;
  mul = λ a b. quot_ℤ (a *ℤ b) (pos 10000);
  div = λ a b. quot_ℤ (a *ℤ pos 10000) b;
  neg = neg_ℤ;
  abs = abs_ℤ;
  lt = ltb_ℤ;
  display = λ a. show_ℤ a ++ "e-4";
  display_fixed = λ n a. show_ℤ a ++ "e-4";
  DateTime = ℤ;
  elapsed_secs = ◌-ℤ◌;
  timestamp_millis = λ t. t *ℤ pos 1000;
  debug_time = show_ℤ;
  display_time = show_ℤ;
  debug_duration = λ n. show_ℕ n ++ "ns";
  Json = String;
}

abbrev pub exact : ExactArithmetic fixed_point
exact = record {
  units = λ a. a;
  lt_units = ltb_ℤ_iff;
  zero_units = refl;
  add_units = λ a b. refl;
  sub_units = λ a b. refl;
  neg_units = λ a. refl;
  abs_units = λ a. refl;
}

-- A whole amount.
abbrev pub whole : ℕ → ℤ
whole n = pos (n * 10000)
