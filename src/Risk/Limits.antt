-- ===== src/Risk/Limits.antt =====
-- crates/risk/src/lib.rs: the limits of the risk gate, stated on the projected quantities, and that
-- each check is silent exactly within its limits.
use feynman_engine.Prelude.{
  ◌≤◌, ◌≡◌, ◌↔◌, refl, Option, none, some, true, false, String, List, [], ◌∷◌, ◌++◌, any, str_eq,
  arith,
}
use feynman_engine.Externs.{Externs}
use feynman_engine.Types.Order.{OrderCore}
use feynman_engine.Types.Portfolio.{FirmBook}
use feynman_engine.Risk.Checks.{
  risk_per_unit, projected_cash_pct, drawdown_halt_pct, cash_reserve_min_pct, min_risk_reward_ratio,
  check_agent_permissions, check_agent_budget, check_account_risk, check_leverage, check_drawdown,
  check_cash_reserve, check_instrument_limits, check_venue_limits, check_signal_requirements,
}
use feynman_engine.Risk.Exposure.{Projected}
use feynman_engine.Risk.Manager.{
  EvaluationPath, submit_signal, submit_order, submit_batch, Inputs, signal_violations,
  find_violations,
}

pub append_nil_iff {ℓ} : {A : Type ℓ} (xs ys : List A) → ((xs ++ ys) ≡ []) ↔ ((xs ≡ []) × (ys ≡ []))
append_nil_iff [] ys = (λ h. (refl, h), λ h. h.1)
append_nil_iff (x ∷ xs) ys = (λ h. cc, λ h. cc)

abbrev pub IsListed : Option (List String) → String → Type 0
IsListed none id = Unit
IsListed (some ids) id = any (λ a. str_eq a id) ids ≡ true

module _ (E : Externs) where
  open E use {Decimal, zero_dec, sub, mul, div, abs, lt}

  -- a ≤ b
  abbrev pub AtMost : Decimal → Decimal → Type 0
  AtMost a b = lt b a ≡ false

  abbrev pub IsPositive : Decimal → Type 0
  IsPositive a = lt zero_dec a ≡ true

  -- What a signal's order must say of its stop and target.
  abbrev pub MeetsRiskReward : Decimal → Decimal → Option Decimal → Type 0
  MeetsRiskReward price stop none = Unit
  MeetsRiskReward price stop (some target) =
      IsPositive (abs (sub price stop))
      × AtMost (min_risk_reward_ratio E) (div (abs (sub target price)) (abs (sub price stop)))

  abbrev pub MeetsSignal : OrderCore E → Decimal → Option Decimal → Type 0
  MeetsSignal core price none = ⊥
  MeetsSignal core price (some stop) = MeetsRiskReward price stop core.take_profit

  abbrev pub MeetsPath : EvaluationPath → OrderCore E → Decimal → Type 0
  MeetsPath submit_signal core price = MeetsSignal core price core.stop_loss
  MeetsPath submit_order core price = Unit
  MeetsPath submit_batch core price = Unit

  -- The limits whose breach rejects an order.
  pub record WithinLimits (core : OrderCore E) (firm_book : FirmBook E) (path : EvaluationPath)
      (i : Inputs E) (p : Projected E) : Type 0 where
    pub instrument_allowed : IsListed i.agent_limits.allowed_instruments core.instrument_id
    pub venue_allowed : IsListed i.agent_limits.allowed_venues core.venue_id
    pub position_within :
        AtMost p.agent_instrument_gross_notional i.agent_limits.max_position_notional
    pub agent_gross_within : AtMost p.agent_gross_notional i.agent_limits.max_gross_notional
    pub capital_left : IsPositive p.agent_free_capital
    pub capital_not_negative : AtMost zero_dec p.agent_free_capital
    pub loss_distance : IsPositive (risk_per_unit E core i.price)
    pub leverage_positive : IsPositive i.instrument_limits.max_leverage
    pub leverage_within :
        AtMost (div p.agent_gross_notional p.agent_free_capital) i.instrument_limits.max_leverage
    pub drawdown_within : AtMost (drawdown_halt_pct E) firm_book.current_drawdown_pct
    pub cash_kept :
        AtMost
          (cash_reserve_min_pct E)
          (projected_cash_pct E p.signed_order_notional i.nav firm_book)
    pub net_qty_within : AtMost (abs p.instrument_net_qty) i.instrument_limits.max_net_qty
    pub gross_qty_within : AtMost p.instrument_gross_qty i.instrument_limits.max_gross_qty
    pub concentration_within :
        AtMost (div p.instrument_gross_notional i.nav) i.instrument_limits.max_concentration_pct
    pub venue_notional_within : AtMost p.venue_notional i.venue_limits.max_notional
    pub venue_share_within : AtMost (div p.venue_notional i.nav) i.venue_limits.max_pct_of_nav
    pub venue_positions_within : p.venue_positions ≤ i.venue_limits.max_positions
    pub signal_met : MeetsPath path core i.price

  module _ (core : OrderCore E) (firm_book : FirmBook E) (path : EvaluationPath) (i : Inputs E)
      (p : Projected E) where
    permissions_iff : (check_agent_permissions E core i.agent_limits ≡ []) ↔ (
        IsListed i.agent_limits.allowed_instruments core.instrument_id
        × IsListed i.agent_limits.allowed_venues core.venue_id)
    unfolding check_agent_permissions
    permissions_iff = ground arith

    budget_iff :
        (check_agent_budget E p.agent_gross_notional p.agent_free_capital
            p.agent_instrument_gross_notional i.agent_limits
          ≡ [])
        ↔ (AtMost zero_dec p.agent_free_capital
            × AtMost p.agent_instrument_gross_notional i.agent_limits.max_position_notional
            × AtMost p.agent_gross_notional i.agent_limits.max_gross_notional)
    unfolding check_agent_budget
    budget_iff = ground arith

    account_iff :
        ((check_account_risk E core i.price i.nav).1 ≡ [])
        ↔ IsPositive (risk_per_unit E core i.price)
    unfolding check_account_risk
    account_iff = ground arith

    leverage_iff :
        (check_leverage E p.agent_gross_notional p.agent_free_capital i.instrument_limits ≡ []) ↔ (
          IsPositive i.instrument_limits.max_leverage
          × IsPositive p.agent_free_capital
          × AtMost
              (div p.agent_gross_notional p.agent_free_capital)
              i.instrument_limits.max_leverage)
    unfolding check_leverage
    leverage_iff = ground arith

    drawdown_iff :
        (check_drawdown E firm_book ≡ [])
        ↔ AtMost (drawdown_halt_pct E) firm_book.current_drawdown_pct
    unfolding check_drawdown
    drawdown_iff = ground arith

    cash_iff :
        (check_cash_reserve E p.signed_order_notional i.nav firm_book ≡ [])
        ↔ AtMost
            (cash_reserve_min_pct E)
            (projected_cash_pct E p.signed_order_notional i.nav firm_book)
    unfolding check_cash_reserve
    cash_iff = ground arith

    instrument_iff :
        (check_instrument_limits E i.nav i.instrument_limits p.instrument_net_qty
            p.instrument_gross_qty p.instrument_gross_notional
          ≡ [])
        ↔ (AtMost (abs p.instrument_net_qty) i.instrument_limits.max_net_qty
            × AtMost p.instrument_gross_qty i.instrument_limits.max_gross_qty
            × AtMost
                (div p.instrument_gross_notional i.nav)
                i.instrument_limits.max_concentration_pct)
    unfolding check_instrument_limits
    instrument_iff = ground arith

    venue_iff :
        (check_venue_limits E p.venue_notional p.venue_positions i.nav i.venue_limits ≡ []) ↔ (
          AtMost p.venue_notional i.venue_limits.max_notional
          × AtMost (div p.venue_notional i.nav) i.venue_limits.max_pct_of_nav
          × (p.venue_positions ≤ i.venue_limits.max_positions))
    unfolding check_venue_limits
    venue_iff = ground arith

    signal_iff : (signal_violations E path core i.price ≡ []) ↔ MeetsPath path core i.price
    unfolding check_signal_requirements
    signal_iff = ground arith

    violations_within :
        find_violations E core firm_book path i p ≡ [] → WithinLimits core firm_book path i p
    unfolding find_violations
    violations_within h =
        let (permissions, h) = (append_nil_iff _ _).0 h in
        let (budget, h) = (append_nil_iff _ _).0 h in
        let (account, h) = (append_nil_iff _ _).0 h in
        let (leverage, h) = (append_nil_iff _ _).0 h in
        let (drawdown, h) = (append_nil_iff _ _).0 h in
        let (cash, h) = (append_nil_iff _ _).0 h in
        let (instrument, h) = (append_nil_iff _ _).0 h in
        let (venue, signal) = (append_nil_iff _ _).0 h in
        record {
          instrument_allowed = (permissions_iff.0 permissions).0;
          venue_allowed = (permissions_iff.0 permissions).1;
          position_within = (budget_iff.0 budget).1;
          agent_gross_within = (budget_iff.0 budget).2;
          capital_left = (leverage_iff.0 leverage).1;
          capital_not_negative = (budget_iff.0 budget).0;
          loss_distance = account_iff.0 account;
          leverage_positive = (leverage_iff.0 leverage).0;
          leverage_within = (leverage_iff.0 leverage).2;
          drawdown_within = drawdown_iff.0 drawdown;
          cash_kept = cash_iff.0 cash;
          net_qty_within = (instrument_iff.0 instrument).0;
          gross_qty_within = (instrument_iff.0 instrument).1;
          concentration_within = (instrument_iff.0 instrument).2;
          venue_notional_within = (venue_iff.0 venue).0;
          venue_share_within = (venue_iff.0 venue).1;
          venue_positions_within = (venue_iff.0 venue).2;
          signal_met = signal_iff.0 signal;
        }

    within_no_violations :
        WithinLimits core firm_book path i p → find_violations E core firm_book path i p ≡ []
    unfolding find_violations
    within_no_violations w = simp (
      permissions_iff.1 (w.instrument_allowed, w.venue_allowed),
      budget_iff.1 (w.capital_not_negative, w.position_within, w.agent_gross_within),
      account_iff.1 w.loss_distance,
      leverage_iff.1 (w.leverage_positive, w.capital_left, w.leverage_within),
      drawdown_iff.1 w.drawdown_within,
      cash_iff.1 w.cash_kept,
      instrument_iff.1 (w.net_qty_within, w.gross_qty_within, w.concentration_within),
      venue_iff.1 (w.venue_notional_within, w.venue_share_within, w.venue_positions_within),
      signal_iff.1 w.signal_met,
    )

    -- No hard violation is found exactly within the limits.
    pub find_violations_iff :
        (find_violations E core firm_book path i p ≡ []) ↔ WithinLimits core firm_book path i p
    find_violations_iff = (violations_within, within_no_violations)
