-- ===== src/Risk/Manager.antt =====
-- crates/risk/src/lib.rs: `AgentRiskManager::evaluate`.
use feynman_engine.Prelude.{
  Option, none, some, Bool, true, false, List, [], ◌∷◌, ◌++◌, Map, lookup, if◌then◌else◌,
}
use feynman_engine.Externs.{Externs, le, min}
use feynman_engine.Types.Order.{OrderCore}
use feynman_engine.Types.Pipeline.{PipelineOrder, Validated}
use feynman_engine.Types.Limits.{
  AgentRiskLimits, InstrumentRiskLimits, VenueRiskLimits, RiskViolation, RiskOutcome, approved,
  resized, rejected,
}
use feynman_engine.Types.Portfolio.{FirmBook, AgentAllocation}
use feynman_engine.Risk.Violations.{ResizeCandidate, violation, string_violation}
use feynman_engine.Risk.Checks.{
  check_agent_permissions, check_agent_budget, check_position_limit, check_account_risk,
  check_leverage, check_drawdown, check_cash_reserve, check_instrument_limits, check_venue_limits,
  check_signal_requirements, tightest_resize,
}
use feynman_engine.Risk.Exposure.{Projected, project}

pub data EvaluationPath : Type 0 where
  submit_signal submit_order submit_batch : EvaluationPath

pub record AgentRiskManager (E : Externs) : Type 0 where
  pub nav : E.Decimal
  pub agent_limits : Map (AgentRiskLimits E)
  pub instrument_limits : Map (InstrumentRiskLimits E)
  pub venue_limits : Map (VenueRiskLimits E)

-- An early return of `evaluate` carries the one violation of its rejection.
pub data Checked {ℓ} (A : Type ℓ) : Type ℓ where
  ok : A → Checked A
  err : RiskViolation → Checked A

infixl 5 ◌>>=◌ ◌>>◌
abbrev pub ◌>>=◌ {ℓ κ} : {A : Type ℓ} {B : Type κ} → Checked A → (A → Checked B) → Checked B
ok a >>= f = f a
err v >>= f = err v

abbrev pub ◌>>◌ {ℓ} : {B : Type ℓ} → Checked (Unit {0}) → Checked B → Checked B
m >> k = m >>= λ _. k

abbrev pub require : Bool → RiskViolation → Checked (Unit {0})
require true v = ok tt
require false v = err v

abbrev pub present {ℓ} : {A : Type ℓ} → Option A → RiskViolation → Checked A
present none v = err v
present (some a) v = ok a

module _ (E : Externs) where
  open E use {Decimal, zero_dec, lt}

  -- What the early returns of `evaluate` establish.
  pub record Inputs : Type 0 where
    pub price : Decimal
    pub nav : Decimal
    pub agent_limits : AgentRiskLimits E
    pub allocation : AgentAllocation E
    pub instrument_limits : InstrumentRiskLimits E
    pub venue_limits : VenueRiskLimits E

  unfoldable pub order_price : OrderCore E → Checked Decimal
  order_price core = elim core.price [
    | none ↦ err (
        string_violation "order_price_required" "missing" "present" "reject"
          "order price is required for deterministic risk evaluation")
    | some price ↦
        if lt zero_dec price
        then ok price
        else err (
            violation E "order_price_positive" price zero_dec "reject"
              "order price must be positive for risk evaluation")
  ]

  unfoldable pub effective_nav : AgentRiskManager E → FirmBook E → Checked Decimal
  effective_nav manager firm_book =
      if le E manager.nav zero_dec
      then err (
          violation E "manager_nav_positive" manager.nav zero_dec "reject"
            "configured risk-manager NAV must be positive")
      else if le E firm_book.nav zero_dec
      then err (
          violation E "firm_nav_positive" firm_book.nav zero_dec "reject"
            "firm-book NAV must be positive")
      else ok (min E manager.nav firm_book.nav)

  unfoldable pub find_inputs : AgentRiskManager E → OrderCore E → FirmBook E → Checked Inputs
  unfolding order_price effective_nav
  find_inputs manager core firm_book = do
    price ← order_price core
    require (lt zero_dec core.qty) (
        violation E "order_qty_positive" core.qty zero_dec "reject"
          "order quantity must be positive")
    nav ← effective_nav manager firm_book
    agent_limits ← present (lookup core.agent_id manager.agent_limits) (
        string_violation "agent_limits_present" core.agent_id "configured agent limits" "reject"
          "agent risk limits are not configured")
    allocation ← present (lookup core.agent_id firm_book.agent_allocations) (
        string_violation "agent_allocation_present" core.agent_id "active agent allocation" "reject"
          "agent allocation is not present in the firm book")
    instrument_limits ← present (lookup core.instrument_id manager.instrument_limits) (
        string_violation "instrument_limits_present" core.instrument_id
          "configured instrument limits" "reject" "instrument risk limits are not configured")
    venue_limits ← present (lookup core.venue_id manager.venue_limits) (
        string_violation "venue_limits_present" core.venue_id "configured venue limits" "reject"
          "venue risk limits are not configured")
    ok (record {
      price = price;
      nav = nav;
      agent_limits = agent_limits;
      allocation = allocation;
      instrument_limits = instrument_limits;
      venue_limits = venue_limits;
    })

  -- The checks that only a signal's order meets.
  abbrev pub signal_violations : EvaluationPath → OrderCore E → Decimal → List RiskViolation
  signal_violations submit_signal core price = check_signal_requirements E core price
  signal_violations submit_order core price = []
  signal_violations submit_batch core price = []

  -- The hard violations, in the order in which `evaluate` pushes them, and the resize candidates.
  unfoldable pub find_violations :
      OrderCore E → FirmBook E → EvaluationPath → Inputs → Projected E → List RiskViolation
  find_violations core firm_book path i p =
      check_agent_permissions E core i.agent_limits
      ++ (check_agent_budget E p.agent_gross_notional p.agent_free_capital
            p.agent_instrument_gross_notional i.agent_limits
          ++ ((check_account_risk E core i.price i.nav).1
              ++ (check_leverage E p.agent_gross_notional p.agent_free_capital i.instrument_limits
                  ++ (check_drawdown E firm_book
                      ++ (check_cash_reserve E p.signed_order_notional i.nav firm_book
                          ++ (check_instrument_limits E i.nav i.instrument_limits
                                p.instrument_net_qty p.instrument_gross_qty
                                p.instrument_gross_notional
                              ++ (check_venue_limits E p.venue_notional p.venue_positions i.nav
                                    i.venue_limits
                                  ++ signal_violations path core i.price)))))))

  unfoldable pub find_resizes : OrderCore E → Inputs → Projected E → List (ResizeCandidate E)
  find_resizes core i p =
      check_position_limit E p.order_notional i.price i.nav
      ++ (check_account_risk E core i.price i.nav).0

  abbrev pub resize_or_approve : Option (ResizeCandidate E) → RiskOutcome E
  resize_or_approve none = approved []
  resize_or_approve (some c) = resized c.new_qty c.reason (c.warning ∷ [])

  -- `if !hard_violations.is_empty()`, then the tightest resize, then approval.
  abbrev pub conclude : List RiskViolation → List (ResizeCandidate E) → RiskOutcome E
  conclude [] resizes = resize_or_approve (tightest_resize E resizes)
  conclude (v ∷ vs) resizes = rejected (v ∷ vs)

  abbrev pub settle : OrderCore E → FirmBook E → EvaluationPath → Checked Inputs → RiskOutcome E
  settle core firm_book path (err v) = rejected (v ∷ [])
  settle core firm_book path (ok i) =
      let p = project E core i.price firm_book i.allocation in
      conclude (find_violations core firm_book path i p) (find_resizes core i p)

  unfoldable pub evaluate :
      AgentRiskManager E
      → PipelineOrder E (Validated E)
      → FirmBook E
      → EvaluationPath
      → RiskOutcome E
  evaluate manager order firm_book path =
      settle order.core firm_book path (find_inputs manager order.core firm_book)
