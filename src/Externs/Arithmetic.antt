-- ===== src/Externs/Arithmetic.antt =====
-- What the exact operations say of the two parts of a value's units, which `omega` reads.
use feynman_engine.Prelude.{ℕ, ◌+◌, ◌-◌, ◌≡◌, true, false, arith, inl, inr, Bool-cases}
use feynman_engine.Prelude.Int.{
  pos_part, neg_part, ◌≤ℤ◌, ◌<ℤ◌, abs_ℤ, +ℤ_parts, -ℤ_parts, neg_ℤ_parts, parts_disjoint,
}
use feynman_engine.Externs.{Externs, ExactArithmetic}

module _ (E : Externs) (X : ExactArithmetic E) where
  open E use {Decimal, zero_dec, add, sub, neg, abs, lt}
  open X use {units}

  -- The whole-number part above zero, and that below.
  abbrev pub above : Decimal → ℕ
  above a = pos_part (units a)

  abbrev pub below : Decimal → ℕ
  below a = neg_part (units a)

  pub add_parts :
      (a b : Decimal) → above (add a b) + below a + below b ≡ below (add a b) + above a + above b
  add_parts a b = rw (X.add_units a b) (+ℤ_parts (units a) (units b))

  pub sub_parts :
      (a b : Decimal) → above (sub a b) + below a + above b ≡ below (sub a b) + above a + below b
  sub_parts a b = rw (X.sub_units a b) (-ℤ_parts (units a) (units b))

  pub neg_parts : (a : Decimal) → above (neg a) + above a ≡ below (neg a) + below a
  neg_parts a = rw (X.neg_units a) (neg_ℤ_parts (units a))

  pub abs_above : (a : Decimal) → above (abs a) ≡ above a + below a
  unfolding abs_ℤ
  abs_above a = rw (X.abs_units a) (omega arith)

  pub abs_below : (a : Decimal) → below (abs a) ≡ 0
  unfolding abs_ℤ
  abs_below a = rw (X.abs_units a) (omega arith)

  -- A value is not on both sides of zero.
  pub one_sided : (a : Decimal) → above a + below a ≡ above a - below a + (below a - above a)
  one_sided a = parts_disjoint (units a)

  pub zero_above : above zero_dec ≡ 0
  zero_above = rw X.zero_units (omega arith)

  pub zero_below : below zero_dec ≡ 0
  zero_below = rw X.zero_units (omega arith)

  pub lt_true : (a b : Decimal) → lt a b ≡ true → units a <ℤ units b
  lt_true a b h = (X.lt_units a b).0 h

  pub lt_false : (a b : Decimal) → lt a b ≡ false → units b ≤ℤ units a
  lt_false a b h = ground (arith, X.lt_units a b)

  pub lt_irrefl : (a : Decimal) → lt a a ≡ false
  lt_irrefl a = elim (Bool-cases (lt a a)) [
    | inl t ↦ absurd (omega (arith, lt_true a a t))
    | inr f ↦ f
  ]

  pub lt_asymm : (a b : Decimal) → lt a b ≡ true → lt b a ≡ false
  lt_asymm a b h = elim (Bool-cases (lt b a)) [
    | inl t ↦ absurd (omega (arith, lt_true a b h, lt_true b a t))
    | inr f ↦ f
  ]
