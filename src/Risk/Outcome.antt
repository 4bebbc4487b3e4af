-- ===== src/Risk/Outcome.antt =====
-- crates/risk/src/lib.rs: what each outcome of `AgentRiskManager::evaluate` says of the order.
use feynman_engine.Prelude.{
  ◌≡◌, ◌⊎◌, ◌↔◌, refl, Option, none, some, Bool, true, false, [], lookup, arith,
}
use feynman_engine.Externs.{Externs, ExactArithmetic, min}
use feynman_engine.Externs.Arithmetic.{lt_irrefl, lt_asymm}
use feynman_engine.Types.Order.{OrderCore}
use feynman_engine.Types.Pipeline.{PipelineOrder, Validated}
use feynman_engine.Types.Limits.{RiskOutcome, approved, resized, rejected}
use feynman_engine.Types.Portfolio.{FirmBook}
use feynman_engine.Risk.Violations.{ResizeCandidate}
use feynman_engine.Risk.Checks.{
  risk_per_unit, position_nav_cap, account_risk_nav_cap, check_position_limit, check_account_risk,
  tightest_resize,
}
use feynman_engine.Risk.Exposure.{Projected, project}
use feynman_engine.Risk.Manager.{
  EvaluationPath, AgentRiskManager, Inputs, Checked, ok, err, find_inputs, find_violations,
  find_resizes, settle, evaluate, resize_or_approve,
}
use feynman_engine.Risk.Limits.{AtMost, IsPositive, WithinLimits, find_violations_iff}

module _ (E : Externs) where
  open E use {Decimal, zero_dec, mul, div, lt}

  -- The configuration and the book that an order is judged by.
  pub record InputsOf (m : AgentRiskManager E) (core : OrderCore E) (firm_book : FirmBook E)
      (i : Inputs E) : Type 0 where
    pub priced : core.price ≡ some i.price
    pub price_positive : IsPositive E i.price
    pub qty_positive : IsPositive E core.qty
    pub manager_solvent : IsPositive E m.nav
    pub firm_solvent : IsPositive E firm_book.nav
    pub nav_least : i.nav ≡ min E m.nav firm_book.nav
    pub agent_configured : lookup core.agent_id m.agent_limits ≡ some i.agent_limits
    pub agent_allocated : lookup core.agent_id firm_book.agent_allocations ≡ some i.allocation
    pub instrument_configured :
        lookup core.instrument_id m.instrument_limits ≡ some i.instrument_limits
    pub venue_configured : lookup core.venue_id m.venue_limits ≡ some i.venue_limits

  module _ (m : AgentRiskManager E) (core : OrderCore E) (firm_book : FirmBook E) where
    inputs_found :
        (i : Inputs E) → find_inputs E m core firm_book ≡ ok i → InputsOf m core firm_book i
    unfolding find_inputs
    inputs_found i h = ground arith

    inputs_sufficient :
        (i : Inputs E) → InputsOf m core firm_book i → find_inputs E m core firm_book ≡ ok i
    unfolding find_inputs
    inputs_sufficient i h = ground arith

  abbrev pub is_rejected : RiskOutcome E → Bool
  is_rejected (approved _) = false
  is_rejected (resized _ _ _) = false
  is_rejected (rejected _) = true

  -- The order is priced and sized, everyone on it is configured, and no limit is broken.
  pub record IsAcceptable (m : AgentRiskManager E) (core : OrderCore E) (firm_book : FirmBook E)
      (path : EvaluationPath) (i : Inputs E) : Type 0 where
    pub inputs : InputsOf m core firm_book i
    pub limits :
        WithinLimits E core firm_book path i (project E core i.price firm_book i.allocation)

  -- The caps that shrink an order: 5% of the net asset value, and a loss of 1% of it.
  abbrev pub position_cap : Inputs E → Decimal
  position_cap i = mul i.nav (position_nav_cap E)

  abbrev pub loss_cap : Inputs E → Decimal
  loss_cap i = mul i.nav (account_risk_nav_cap E)

  abbrev pub max_loss : OrderCore E → Inputs E → Decimal
  max_loss core i = mul core.qty (risk_per_unit E core i.price)

  resize_or_approve_accepts :
      (c : Option (ResizeCandidate E)) → is_rejected (resize_or_approve E c) ≡ false
  resize_or_approve_accepts none = refl
  resize_or_approve_accepts (some c) = refl

  settle_accepts :
      (core : OrderCore E) (firm_book : FirmBook E) (path : EvaluationPath) (c : Checked (Inputs E))
      → is_rejected (settle E core firm_book path c) ≡ false
      → (i : Inputs E) × (c ≡ ok i)
        × (find_violations E core firm_book path i (project E core i.price firm_book i.allocation)
            ≡ [])
  settle_accepts core firm_book path (err v) h = cc
  settle_accepts core firm_book path (ok i) h = (i, refl, ground arith)

  module _ (m : AgentRiskManager E) (order : PipelineOrder E (Validated E))
      (firm_book : FirmBook E) where
    accepted_is_acceptable :
        (path : EvaluationPath)
        → is_rejected (evaluate E m order firm_book path) ≡ false
        → (i : Inputs E) × IsAcceptable m order.core firm_book path i
    unfolding evaluate
    accepted_is_acceptable path h =
        let (i, found, silent) =
          settle_accepts order.core firm_book path (find_inputs E m order.core firm_book) h in
        (
          i,
          record {
            inputs = inputs_found m order.core firm_book i found;
            limits =
                (find_violations_iff E order.core firm_book path i
                    (project E order.core i.price firm_book i.allocation)).0
                  silent;
          },
        )

    pub evaluate_acceptable :
        (path : EvaluationPath) (i : Inputs E)
        → IsAcceptable m order.core firm_book path i
        → evaluate E m order firm_book path
          ≡ resize_or_approve E (
              tightest_resize E
                (find_resizes E order.core i (project E order.core i.price firm_book i.allocation)))
    unfolding evaluate
    evaluate_acceptable path i a = rw (
      inputs_sufficient m order.core firm_book i a.inputs,
      (find_violations_iff E order.core firm_book path i
            (project E order.core i.price firm_book i.allocation)).1
          a.limits,
    )

    -- The gate does not reject an order exactly when the order is priced and sized, both net asset
    -- values are positive, its agent, instrument and venue are configured, the agent has an
    -- allocation, and every limit of `WithinLimits` is met. The drawdown among these is the firm's;
    -- the agent's own drawdown limit is not read.
    pub evaluate_accepts_iff :
        (path : EvaluationPath)
        → (is_rejected (evaluate E m order firm_book path) ≡ false)
          ↔ ((i : Inputs E) × IsAcceptable m order.core firm_book path i)
    evaluate_accepts_iff path = (
      accepted_is_acceptable path,
      λ (i, a). rw (evaluate_acceptable path i a) (resize_or_approve_accepts _),
    )

  -- The size that an acceptable order is given: its own within both caps, and otherwise the smaller
  -- of the quantities that the broken caps allow.
  abbrev pub IsRightSize : OrderCore E → Inputs E → Projected E → RiskOutcome E → Type 0
  IsRightSize core i p (approved ws) =
      (ws ≡ [])
      × AtMost E p.order_notional (position_cap i)
      × AtMost E (max_loss core i) (loss_cap i)
  IsRightSize core i p (resized q reason ws) =
      (lt (position_cap i) p.order_notional ≡ true → AtMost E q (div (position_cap i) i.price))
      × (lt (loss_cap i) (max_loss core i) ≡ true
          → AtMost E q (div (loss_cap i) (risk_per_unit E core i.price)))
      × ((lt (position_cap i) p.order_notional ≡ true) × (q ≡ div (position_cap i) i.price)
          ⊎ (lt (loss_cap i) (max_loss core i) ≡ true)
            × (q ≡ div (loss_cap i) (risk_per_unit E core i.price)))
  IsRightSize core i p (rejected vs) = ⊥

  right_size :
      (X : ExactArithmetic E) (core : OrderCore E) (i : Inputs E) (p : Projected E)
      → IsPositive E (risk_per_unit E core i.price)
      → IsRightSize core i p (resize_or_approve E (tightest_resize E (find_resizes E core i p)))
  unfolding find_resizes check_position_limit check_account_risk tightest_resize
  right_size X core i p h =
      let cap = div (position_cap i) i.price in
      let loss = div (loss_cap i) (risk_per_unit E core i.price) in
      ground (arith, lt_irrefl E X cap, lt_irrefl E X loss, lt_asymm E X loss cap)

  -- With the documented order of decimals, an acceptable order is approved at its own size and with
  -- no warning if it stays within 5% of the net asset value and its loss within 1%; otherwise it is
  -- resized to the smallest of the quantities that the exceeded caps allow.
  pub evaluate-IsRightSize :
      (X : ExactArithmetic E) (m : AgentRiskManager E) (order : PipelineOrder E (Validated E))
      (firm_book : FirmBook E) (path : EvaluationPath) (i : Inputs E)
      → IsAcceptable m order.core firm_book path i
      → IsRightSize order.core i
          (project E order.core i.price firm_book i.allocation)
          (evaluate E m order firm_book path)
  evaluate-IsRightSize X m order firm_book path i a =
      rw (evaluate_acceptable m order firm_book path i a) (
        right_size X order.core i (project E order.core i.price firm_book i.allocation)
          a.limits.loss_distance)
