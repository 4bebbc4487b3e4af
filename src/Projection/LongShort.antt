-- ===== src/Projection/LongShort.antt =====
-- Laws of the projected exposure, for a book whose two sides are exact halves.
use feynman_engine.Prelude.{◌+◌, ◌*◌, ◌≤◌, ◌≡◌, arith, ap, if◌then◌else◌}
use feynman_engine.Prelude.Int.{
  pos, pos_part, neg_part, ◌≤ℤ◌, ◌+ℤ◌, ◌-ℤ◌, neg_ℤ, int_laws, magnitude,
}
use feynman_engine.Externs.{Externs, ExactArithmetic}
use feynman_engine.Externs.Arithmetic.{
  above, below, add_parts, sub_parts, abs_above, abs_below, zero_above, zero_below, lt_true,
  lt_false, one_sided,
}
use feynman_engine.Projection.{long_side, short_side, trade, project_net_and_gross}

module _ (E : Externs) (X : ExactArithmetic E) where
  open E use {Decimal}
  open X use {units}

  -- Halving the book's sums loses nothing, and neither side is negative: |net| is at most gross.
  pub record IsBook (net gross : Decimal) : Type 0 where
    pub long_exact :
        units (long_side E net gross) +ℤ units (long_side E net gross) ≡ units gross +ℤ units net
    pub short_exact :
        units (short_side E net gross) +ℤ units (short_side E net gross) ≡ units gross -ℤ units net
    pub net_le : units net ≤ℤ units gross
    pub neg_net_le : neg_ℤ (units net) ≤ℤ units gross

  abbrev Sides : Decimal → Decimal → Decimal → Decimal × Decimal
  Sides net gross delta = trade E (long_side E net gross) (short_side E net gross) delta

  -- The net of the two sides moves by the signed amount.
  trade_net :
      (l s d : Decimal)
      → let (l', s') = trade E l s d in
        above E X (E.sub l' s') + below E X l + above E X s + below E X d
        ≡ below E X (E.sub l' s') + above E X l + below E X s + above E X d
  trade_net l s d = grind (
    arith,
    add_parts E X,
    sub_parts E X,
    abs_above E X,
    abs_below E X,
    lt_true E X,
    lt_false E X,
    zero_above E X,
    zero_below E X,
    one_sided E X,
  )

  -- Neither side becomes negative.
  trade_nonneg :
      (l s d : Decimal)
      → below E X l ≡ 0
      → below E X s ≡ 0
      → let (l', s') = trade E l s d in (below E X l' ≡ 0) × (below E X s' ≡ 0)
  trade_nonneg l s d hl hs = grind (
    arith,
    add_parts E X,
    sub_parts E X,
    abs_above E X,
    abs_below E X,
    lt_true E X,
    lt_false E X,
    zero_above E X,
    zero_below E X,
    one_sided E X,
  )

  -- The size of a trade, and the side that it closes first.
  abbrev pub opposing : Decimal → Decimal → Decimal → Decimal
  opposing net gross delta =
      if E.lt delta E.zero_dec then long_side E net gross else short_side E net gross

  trade_gross_closing :
      (l s d : Decimal)
      → below E X l ≡ 0
      → below E X s ≡ 0
      → above E X d + below E X d ≤ above E X (if E.lt d E.zero_dec then l else s)
      → let (l', s') = trade E l s d in
        above E X l' + above E X s' + (above E X d + below E X d) ≡ above E X l + above E X s
  trade_gross_closing l s d hl hs h = grind (
    arith,
    add_parts E X,
    sub_parts E X,
    abs_above E X,
    abs_below E X,
    lt_true E X,
    lt_false E X,
    zero_above E X,
    zero_below E X,
    one_sided E X,
  )

  trade_gross_opening :
      (l s d : Decimal)
      → below E X l ≡ 0
      → below E X s ≡ 0
      → above E X (if E.lt d E.zero_dec then l else s) ≤ above E X d + below E X d
      → let (l', s') = trade E l s d in
        above E X l' + above E X s' + 2 * above E X (if E.lt d E.zero_dec then l else s)
        ≡ above E X l + above E X s + (above E X d + below E X d)
  trade_gross_opening l s d hl hs h = grind (
    arith,
    add_parts E X,
    sub_parts E X,
    abs_above E X,
    abs_below E X,
    lt_true E X,
    lt_false E X,
    zero_above E X,
    zero_below E X,
    one_sided E X,
  )

  -- What the exact halves say of the two sides.
  record Halves (net gross : Decimal) : Type 0 where
    long_nonneg : below E X (long_side E net gross) ≡ 0
    short_nonneg : below E X (short_side E net gross) ≡ 0
    long_twice :
        2 * above E X (long_side E net gross) + below E X gross + below E X net
        ≡ above E X gross + above E X net
    short_twice :
        2 * above E X (short_side E net gross) + below E X gross + above E X net
        ≡ above E X gross + below E X net

  IsBook-Halves : (net gross : Decimal) → IsBook net gross → Halves net gross
  IsBook-Halves net gross b = omega (
    int_laws,
    ap pos_part b.long_exact,
    ap neg_part b.long_exact,
    ap pos_part b.short_exact,
    ap neg_part b.short_exact,
    one_sided E X (long_side E net gross),
    one_sided E X (short_side E net gross),
  )

  -- For a book whose halves are exact, the net exposure moves by exactly the signed amount of the
  -- trade, and the projected pair is again a book: the net lies between minus the gross and the
  -- gross.
  pub project_net :
      (net gross delta : Decimal)
      → IsBook net gross
      → let (net', gross') = project_net_and_gross E net gross delta in
        (units net' ≡ units net +ℤ units delta)
        × (units net' ≤ℤ units gross')
        × (neg_ℤ (units net') ≤ℤ units gross')
  unfolding project_net_and_gross
  project_net net gross delta b =
      let h = IsBook-Halves net gross b in
      let l = long_side E net gross in
      let s = short_side E net gross in
      let n = trade_net l s delta in
      let p = trade_nonneg l s delta h.long_nonneg h.short_nonneg in
      (
        omega (int_laws, n, h),
        omega (int_laws, add_parts E X, sub_parts E X, p),
        omega (int_laws, add_parts E X, sub_parts E X, p),
      )

  opposing_nonneg :
      (net gross delta : Decimal) → Halves net gross → below E X (opposing net gross delta) ≡ 0
  opposing_nonneg net gross delta h = ground arith

  -- For such a book, a trade that the opposing side can absorb (a sale within the long side, a buy
  -- within the short side) lowers the gross exposure by its size; a larger one closes that side
  -- and opens the rest.
  pub project_gross :
      (net gross delta : Decimal)
      → IsBook net gross
      → let gross' = (project_net_and_gross E net gross delta).1 in
        let size = pos (magnitude (units delta)) in
        let closed = units (opposing net gross delta) in
        (size ≤ℤ closed → units gross' ≡ units gross -ℤ size)
        × (closed ≤ℤ size → units gross' +ℤ closed +ℤ closed ≡ units gross +ℤ size)
  unfolding project_net_and_gross
  project_gross net gross delta b =
      let h = IsBook-Halves net gross b in
      let l = long_side E net gross in
      let s = short_side E net gross in
      let p = trade_nonneg l s delta h.long_nonneg h.short_nonneg in
      let o = opposing_nonneg net gross delta h in
      (
        λ fits. omega (
          int_laws,
          h,
          p,
          o,
          add_parts E X,
          trade_gross_closing l s delta h.long_nonneg h.short_nonneg (omega (arith, fits, o)),
        ),
        λ exceeds. omega (
          int_laws,
          h,
          p,
          o,
          add_parts E X,
          trade_gross_opening l s delta h.long_nonneg h.short_nonneg (omega (arith, exceeds, o)),
        ),
      )
