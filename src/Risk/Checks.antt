-- ===== src/Risk/Checks.antt =====
-- crates/risk/src/lib.rs: the checks of `AgentRiskManager`. A check returns the violations, or the
-- resize candidates, that it pushes on the vectors of `evaluate`.
use feynman_engine.Prelude.{
  ℕ, Option, none, some, Bool, true, false, not, String, List, [], ◌∷◌, ◌++◌, ltb, any, str_eq,
  if◌then◌else◌,
}
use feynman_engine.Prelude.Int.{pos, negsuc}
use feynman_engine.Externs.{Externs, le}
use feynman_engine.Types.Order.{OrderCore}
use feynman_engine.Types.Limits.{
  AgentRiskLimits, InstrumentRiskLimits, VenueRiskLimits, RiskViolation,
}
use feynman_engine.Types.Portfolio.{FirmBook}
use feynman_engine.Risk.Violations.{ResizeCandidate, violation, soft_violation, string_violation}

-- `if failed { push(v) }`
abbrev pub push_if {ℓ} : {A : Type ℓ} → Bool → A → List A
push_if true v = v ∷ []
push_if false v = []

-- `Option<Vec<_>>` as a whitelist: `None` allows everything.
abbrev pub not_listed : Option (List String) → String → Bool
not_listed none id = false
not_listed (some ids) id = not (any (λ a. str_eq a id) ids)

module _ (E : Externs) where
  open E use {Decimal, zero_dec, literal, from_u32, sub, mul, div, abs, lt}

  abbrev pub position_nav_cap : Decimal
  position_nav_cap = literal (pos 5) 2

  abbrev pub account_risk_nav_cap : Decimal
  account_risk_nav_cap = literal (pos 1) 2

  abbrev pub drawdown_halt_pct : Decimal
  drawdown_halt_pct = literal (negsuc 14) 2

  abbrev pub cash_reserve_min_pct : Decimal
  cash_reserve_min_pct = literal (pos 20) 2

  abbrev pub min_risk_reward_ratio : Decimal
  min_risk_reward_ratio = literal (pos 2) 0

  unfoldable pub check_agent_permissions : OrderCore E → AgentRiskLimits E → List RiskViolation
  check_agent_permissions core limits =
      push_if (not_listed limits.allowed_instruments core.instrument_id) (
        string_violation "agent_allowed_instruments" core.instrument_id
          "instrument in agent whitelist" "reject"
          "agent is not permitted to trade this instrument")
      ++ push_if (not_listed limits.allowed_venues core.venue_id) (
          string_violation "agent_allowed_venues" core.venue_id "venue in agent whitelist" "reject"
            "agent is not permitted to trade this venue")

  unfoldable pub check_agent_budget :
      Decimal → Decimal → Decimal → AgentRiskLimits E → List RiskViolation
  check_agent_budget gross free instrument_gross limits =
      push_if (lt free zero_dec) (
        violation E "agent_free_capital" free zero_dec "reject"
          "order exceeds the agent's free capital")
      ++ (push_if (lt limits.max_position_notional instrument_gross) (
            violation E "agent_max_position_notional" instrument_gross limits.max_position_notional
              "reject" "order exceeds the agent's max single-position notional")
          ++ push_if (lt limits.max_gross_notional gross) (
              violation E "agent_max_gross_notional" gross limits.max_gross_notional "reject"
                "projected agent gross notional exceeds the configured cap"))

  unfoldable pub check_position_limit : Decimal → Decimal → Decimal → List (ResizeCandidate E)
  check_position_limit order_notional price nav =
      let max_position_notional = mul nav position_nav_cap in
      push_if (lt max_position_notional order_notional) (record {
        new_qty = div max_position_notional price;
        reason = "position notional exceeds 5% NAV; resize to the 5% cap";
        warning =
            soft_violation E "position_notional_pct" order_notional max_position_notional "resize"
              "order exceeds the 5% NAV single-position cap";
      })

  -- The loss per unit: down to the stop, or the whole price.
  abbrev pub risk_per_unit : OrderCore E → Decimal → Decimal
  risk_per_unit core price = elim core.stop_loss [
    | none ↦ price
    | some stop_loss ↦ abs (sub price stop_loss)
  ]

  unfoldable pub check_account_risk :
      OrderCore E → Decimal → Decimal → List (ResizeCandidate E) × List RiskViolation
  check_account_risk core price nav =
      let risk = risk_per_unit core price in
      let max_loss_cap = mul nav account_risk_nav_cap in
      let projected_max_loss = mul core.qty risk in
      if le E risk zero_dec
      then (
        [],
        violation E "account_risk_distance_positive" risk zero_dec "reject"
              "entry price and stop loss must define a positive loss distance"
            ∷ [],
      )
      else (
        push_if (lt max_loss_cap projected_max_loss) (record {
          new_qty = div max_loss_cap risk;
          reason = "projected account risk exceeds 1% NAV; resize to the max-loss cap";
          warning =
              soft_violation E "account_risk_pct" projected_max_loss max_loss_cap "resize"
                "projected max loss exceeds the 1% NAV cap";
        }),
        [],
      )

  unfoldable pub check_leverage : Decimal → Decimal → InstrumentRiskLimits E → List RiskViolation
  check_leverage gross free limits =
      if le E limits.max_leverage zero_dec
      then violation E "instrument_max_leverage_positive" limits.max_leverage zero_dec "reject"
          "instrument max leverage must be positive"
        ∷ []
      else if le E free zero_dec
      then violation E "agent_free_capital_positive" free zero_dec "reject"
          "agent free capital must be positive to evaluate leverage"
        ∷ []
      else push_if (lt limits.max_leverage (div gross free)) (
          violation E "instrument_max_leverage" (div gross free) limits.max_leverage "reject"
            "projected leverage exceeds the instrument leverage cap")

  unfoldable pub check_drawdown : FirmBook E → List RiskViolation
  check_drawdown firm_book = push_if (lt firm_book.current_drawdown_pct drawdown_halt_pct) (
      violation E "firm_drawdown_pct" firm_book.current_drawdown_pct drawdown_halt_pct "halt_all"
        "firm drawdown breached the 15% halt threshold")

  -- The share of the net asset value that stays in cash.
  abbrev pub projected_cash_pct : Decimal → Decimal → FirmBook E → Decimal
  projected_cash_pct signed_notional nav firm_book =
      div (sub firm_book.cash_available signed_notional) nav

  unfoldable pub check_cash_reserve : Decimal → Decimal → FirmBook E → List RiskViolation
  check_cash_reserve signed_notional nav firm_book =
      let cash_pct = projected_cash_pct signed_notional nav firm_book in
      push_if (lt cash_pct cash_reserve_min_pct) (
        violation E "cash_reserve_pct" cash_pct cash_reserve_min_pct "reject"
          "projected cash reserve falls below the 20% NAV minimum")

  unfoldable pub check_instrument_limits :
      Decimal → InstrumentRiskLimits E → Decimal → Decimal → Decimal → List RiskViolation
  check_instrument_limits nav limits net_qty gross_qty gross_notional =
      let concentration = div gross_notional nav in
      push_if (lt limits.max_net_qty (abs net_qty)) (
        violation E "instrument_max_net_qty" (abs net_qty) limits.max_net_qty "reject"
          "projected instrument net quantity exceeds the configured cap")
      ++ (push_if (lt limits.max_gross_qty gross_qty) (
            violation E "instrument_max_gross_qty" gross_qty limits.max_gross_qty "reject"
              "projected instrument gross quantity exceeds the configured cap")
          ++ push_if (lt limits.max_concentration_pct concentration) (
              violation E "instrument_max_concentration_pct" concentration
                limits.max_concentration_pct "reject"
                "projected instrument exposure exceeds the concentration cap"))

  unfoldable pub check_venue_limits : Decimal → ℕ → Decimal → VenueRiskLimits E → List RiskViolation
  check_venue_limits notional positions nav limits =
      let pct_of_nav = div notional nav in
      push_if (lt limits.max_notional notional) (
        violation E "venue_max_notional" notional limits.max_notional "reject"
          "projected venue notional exceeds the configured cap")
      ++ (push_if (lt limits.max_pct_of_nav pct_of_nav) (
            violation E "venue_max_pct_of_nav" pct_of_nav limits.max_pct_of_nav "reject"
              "projected venue concentration exceeds the NAV cap")
          ++ push_if (ltb limits.max_positions positions) (
              violation E "venue_max_positions" (from_u32 positions) (from_u32 limits.max_positions)
                "reject" "projected venue position count exceeds the configured cap"))

  -- The ratio of reward to risk, for a signal with a stop and a target.
  check_risk_reward : Decimal → Decimal → Decimal → List RiskViolation
  check_risk_reward price stop_loss take_profit =
      let risk_distance = abs (sub price stop_loss) in
      let ratio = div (abs (sub take_profit price)) risk_distance in
      if le E risk_distance zero_dec
      then violation E "signal_risk_distance_positive" risk_distance zero_dec "reject"
          "risk/reward evaluation requires a positive stop distance"
        ∷ []
      else push_if (lt ratio min_risk_reward_ratio) (
          violation E "signal_risk_reward_ratio" ratio min_risk_reward_ratio "reject"
            "signal risk/reward ratio is below 2:1")

  unfoldable pub check_signal_requirements : OrderCore E → Decimal → List RiskViolation
  unfolding check_risk_reward
  check_signal_requirements core price = elim core.stop_loss [
    | none ↦
        string_violation "signal_stop_loss_required" "missing" "present" "reject"
          "SubmitSignal orders must define a stop loss"
        ∷ []
    | some stop_loss ↦ elim core.take_profit [
      | none ↦ []
      | some take_profit ↦ check_risk_reward price stop_loss take_profit
    ]
  ]

  -- `min_by` on the new quantity: the first of the smallest.
  tighter : ResizeCandidate E → Option (ResizeCandidate E) → ResizeCandidate E
  tighter c none = c
  tighter c (some d) = if lt d.new_qty c.new_qty then d else c

  unfoldable pub tightest_resize : List (ResizeCandidate E) → Option (ResizeCandidate E)
  unfolding tighter
  tightest_resize [] = none
  tightest_resize (c ∷ cs) = some (tighter c (tightest_resize cs))
