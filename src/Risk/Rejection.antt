-- ===== src/Risk/Rejection.antt =====
-- crates/risk/src/lib.rs: what a rejection carries, and how the ingress path changes the verdict.
use feynman_engine.Prelude.{
  ◌≡◌, ◌≢◌, refl, ◌∙◌, sym, some, false, List, [], ◌∷◌, All, All-append, arith,
}
use feynman_engine.Externs.{Externs}
use feynman_engine.Types.Order.{OrderCore}
use feynman_engine.Types.Pipeline.{PipelineOrder, Validated}
use feynman_engine.Types.Limits.{RiskViolation, RiskOutcome, rejected, hard}
use feynman_engine.Types.Portfolio.{FirmBook}
use feynman_engine.Risk.Checks.{
  check_agent_permissions, check_agent_budget, check_account_risk, check_leverage, check_drawdown,
  check_cash_reserve, check_instrument_limits, check_venue_limits, check_signal_requirements,
}
use feynman_engine.Risk.Exposure.{Projected, project}
use feynman_engine.Risk.Manager.{
  EvaluationPath, submit_signal, submit_order, submit_batch, AgentRiskManager, Inputs, Checked, ok,
  err, find_inputs, find_violations, find_resizes, conclude, settle, evaluate, signal_violations,
}
use feynman_engine.Risk.Violations.{ResizeCandidate}
use feynman_engine.Risk.Limits.{MeetsSignal, WithinLimits}
use feynman_engine.Risk.Outcome.{is_rejected, evaluate_acceptable, evaluate_accepts_iff}

abbrev pub IsHard : RiskViolation → Type 0
IsHard v = v.violation_type ≡ hard

abbrev AllHard : List RiskViolation → Type 0
AllHard = All IsHard

module _ (E : Externs) where
  open E use {Decimal}

  -- A rejection names at least one violation, and only hard ones.
  abbrev pub IsHardRejection : RiskOutcome E → Type 0
  IsHardRejection (rejected vs) = (vs ≢ []) × AllHard vs
  IsHardRejection _ = Unit

  module _ (core : OrderCore E) (firm_book : FirmBook E) (path : EvaluationPath) (i : Inputs E)
      (p : Projected E) where
    permissions_hard : AllHard (check_agent_permissions E core i.agent_limits)
    unfolding check_agent_permissions
    permissions_hard = ground arith

    budget_hard : AllHard (
        check_agent_budget E p.agent_gross_notional p.agent_free_capital
          p.agent_instrument_gross_notional i.agent_limits)
    unfolding check_agent_budget
    budget_hard = ground arith

    account_hard : AllHard (check_account_risk E core i.price i.nav).1
    unfolding check_account_risk
    account_hard = ground arith

    leverage_hard :
        AllHard (check_leverage E p.agent_gross_notional p.agent_free_capital i.instrument_limits)
    unfolding check_leverage
    leverage_hard = ground arith

    book_hard :
        AllHard (check_drawdown E firm_book)
        × AllHard (check_cash_reserve E p.signed_order_notional i.nav firm_book)
    unfolding check_drawdown check_cash_reserve
    book_hard = ground arith

    instrument_hard : AllHard (
        check_instrument_limits E i.nav i.instrument_limits p.instrument_net_qty
          p.instrument_gross_qty p.instrument_gross_notional)
    unfolding check_instrument_limits
    instrument_hard = ground arith

    venue_hard :
        AllHard (check_venue_limits E p.venue_notional p.venue_positions i.nav i.venue_limits)
    unfolding check_venue_limits
    venue_hard = ground arith

    signal_hard : AllHard (signal_violations E path core i.price)
    unfolding check_signal_requirements
    signal_hard = ground arith

    violations_hard : AllHard (find_violations E core firm_book path i p)
    unfolding find_violations
    violations_hard = All-append _ _ IsHard permissions_hard (
        All-append _ _ IsHard budget_hard (
          All-append _ _ IsHard account_hard (
            All-append _ _ IsHard leverage_hard (
              All-append _ _ IsHard book_hard.0 (
                All-append _ _ IsHard book_hard.1 (
                  All-append _ _ IsHard instrument_hard
                    (All-append _ _ IsHard venue_hard signal_hard)))))))

  inputs_error-IsHard :
      (m : AgentRiskManager E) (core : OrderCore E) (firm_book : FirmBook E) (v : RiskViolation)
      → find_inputs E m core firm_book ≡ err v
      → IsHard v
  unfolding find_inputs
  inputs_error-IsHard m core firm_book v h = ground arith

  conclude_hard :
      (vs : List RiskViolation) (rs : List (ResizeCandidate E))
      → AllHard vs
      → IsHardRejection (conclude E vs rs)
  conclude_hard [] rs h = ground arith
  conclude_hard (v ∷ vs) rs h = ((λ e. cc), h)

  settle_hard :
      (m : AgentRiskManager E) (core : OrderCore E) (firm_book : FirmBook E) (path : EvaluationPath)
      (c : Checked (Inputs E))
      → ((v : RiskViolation) → c ≡ err v → IsHard v)
      → IsHardRejection (settle E core firm_book path c)
  settle_hard m core firm_book path (err v) h = ((λ e. cc), (h v refl, tt))
  settle_hard m core firm_book path (ok i) h =
      let p = project E core i.price firm_book i.allocation in
      conclude_hard (find_violations E core firm_book path i p) (find_resizes E core i p)
        (violations_hard core firm_book path i p)

  -- Every rejection of the gate names at least one violation, and all that it names are hard.
  pub evaluate-IsHardRejection :
      (m : AgentRiskManager E) (order : PipelineOrder E (Validated E)) (firm_book : FirmBook E)
      (path : EvaluationPath)
      → IsHardRejection (evaluate E m order firm_book path)
  unfolding evaluate
  evaluate-IsHardRejection m order firm_book path =
      settle_hard m order.core firm_book path (find_inputs E m order.core firm_book)
        (inputs_error-IsHard m order.core firm_book)

  -- The limits on a signal's order contain those on any order.
  weaken :
      (core : OrderCore E) (firm_book : FirmBook E) (i : Inputs E) (p : Projected E)
      → WithinLimits E core firm_book submit_signal i p
      → WithinLimits E core firm_book submit_order i p
        × WithinLimits E core firm_book submit_batch i p
  weaken core firm_book i p w = assumption

  -- An order that the gate lets through as a signal carries a stop loss, meets the ratio of reward
  -- to risk, both taken as absolute distances from the price, if it has a target, and gets the same verdict as a plain or a batch order.
  pub evaluate-submit_signal :
      (m : AgentRiskManager E) (order : PipelineOrder E (Validated E)) (firm_book : FirmBook E)
      → is_rejected E (evaluate E m order firm_book submit_signal) ≡ false
      → ((price : Decimal) × (order.core.price ≡ some price)
          × MeetsSignal E order.core price order.core.stop_loss)
        × (evaluate E m order firm_book submit_order ≡ evaluate E m order firm_book submit_signal)
        × (evaluate E m order firm_book submit_batch ≡ evaluate E m order firm_book submit_signal)
  evaluate-submit_signal m order firm_book h =
      let (i, a) = (evaluate_accepts_iff E m order firm_book submit_signal).0 h in
      let p = project E order.core i.price firm_book i.allocation in
      let (w, v) = weaken order.core firm_book i p a.limits in
      let as_signal = evaluate_acceptable E m order firm_book submit_signal i a in
      (
        (i.price, a.inputs.priced, a.limits.signal_met),
        evaluate_acceptable E m order firm_book submit_order i
              (record { inputs = a.inputs; limits = w })
            ∙ sym as_signal,
        evaluate_acceptable E m order firm_book submit_batch i
              (record { inputs = a.inputs; limits = v })
            ∙ sym as_signal,
      )
