-- ===== src/Externs.antt =====
-- What the engine takes from other crates: `rust_decimal::Decimal`, `chrono::DateTime<Utc>` and
-- `serde_json::Value`.
pub mod Arithmetic
pub mod FixedPoint
use feynman_engine.Prelude.{ℕ, ◌≡◌, ◌↔◌, Bool, true, not, ◌&&◌, String, if◌then◌else◌}
use feynman_engine.Prelude.Int.{ℤ, pos, ◌+ℤ◌, ◌-ℤ◌, ◌<ℤ◌, neg_ℤ, abs_ℤ}

-- The types and the operations that the code calls, with no law.
pub record Externs : Type 1 where
  pub Decimal : Type 0
  pub zero_dec : Decimal
  pub literal : ℤ → ℕ → Decimal  -- `dec!`: a mantissa and the number of decimals
  pub from_u32 : ℕ → Decimal
  pub add : Decimal → Decimal → Decimal
  pub sub : Decimal → Decimal → Decimal
  pub mul : Decimal → Decimal → Decimal
  pub div : Decimal → Decimal → Decimal
  pub neg : Decimal → Decimal
  pub abs : Decimal → Decimal
  pub lt : Decimal → Decimal → Bool
  pub display : Decimal → String
  pub display_fixed : ℕ → Decimal → String  -- `{:.n}`
  pub DateTime : Type 0
  pub elapsed_secs : DateTime → DateTime → ℤ  -- `(later - earlier).num_seconds()`
  pub timestamp_millis : DateTime → ℤ
  pub debug_time : DateTime → String  -- `{:?}`
  pub display_time : DateTime → String  -- `{}`
  pub debug_duration : ℕ → String  -- `{:?}` of a `std::time::Duration`, in nanoseconds
  pub Json : Type 0  -- `serde_json::Value`

-- The documented meaning of the exact operations: a `Decimal` is a whole number of units of its
-- last place, comparison goes by value, and sums and differences that fit are exact.
pub record ExactArithmetic (E : Externs) : Type 1 where
  pub units : E.Decimal → ℤ
  pub lt_units : (a b : E.Decimal) → (E.lt a b ≡ true) ↔ (units a <ℤ units b)
  pub zero_units : units E.zero_dec ≡ pos 0
  pub add_units : (a b : E.Decimal) → units (E.add a b) ≡ units a +ℤ units b
  pub sub_units : (a b : E.Decimal) → units (E.sub a b) ≡ units a -ℤ units b
  pub neg_units : (a : E.Decimal) → units (E.neg a) ≡ neg_ℤ (units a)
  pub abs_units : (a : E.Decimal) → units (E.abs a) ≡ abs_ℤ (units a)

module _ (E : Externs) where
  open E use {Decimal, lt}

  -- `a <= b` of a total order.
  abbrev pub le : Decimal → Decimal → Bool
  le a b = not (lt b a)

  -- `Ord::min`: the first of two that compare equal.
  abbrev pub min : Decimal → Decimal → Decimal
  min a b = if lt b a then b else a

  -- `Decimal::is_zero`
  abbrev pub is_zero : Decimal → Bool
  is_zero a = not (lt a E.zero_dec) && not (lt E.zero_dec a)
