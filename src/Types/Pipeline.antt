-- ===== src/Types/Pipeline.antt =====
-- crates/types/src/pipeline.rs: an order at a stage. Each stage carries what the one before it
-- gathered, and the only ways from one stage to the next are the transitions below.
use feynman_engine.Prelude.{String, List}
use feynman_engine.Externs.{Externs}
use feynman_engine.Types.Order.{OrderCore}
use feynman_engine.Types.Limits.{RiskCheckResult, RiskViolation}

pub record RiskApprovalStamp (E : Externs) : Type 0 where
  pub approved_at : E.DateTime
  pub checks_performed : List RiskCheckResult
  pub warnings : List RiskViolation

pub record RoutingAssignment (E : Externs) : Type 0 where
  pub venue_id : String
  pub client_order_id : String
  pub routed_at : E.DateTime

pub data Draft : Type 0 where
  draft : Draft

pub record Validated (E : Externs) : Type 0 where
  pub validated_at : E.DateTime

pub record RiskChecked (E : Externs) : Type 0 where
  pub validated_at : E.DateTime
  pub approval : RiskApprovalStamp E

pub record Routed (E : Externs) : Type 0 where
  pub validated_at : E.DateTime
  pub approval : RiskApprovalStamp E
  pub routing : RoutingAssignment E

pub record PipelineOrder (E : Externs) (S : Type 0) : Type 0 where
  pub core : OrderCore E
  pub stage : S

module _ (E : Externs) where
  -- `PipelineOrder::<Draft>::new`
  unfoldable pub new : OrderCore E → PipelineOrder E Draft
  new core = record { core = core; stage = draft }

  unfoldable pub into_validated : PipelineOrder E Draft → E.DateTime → PipelineOrder E (Validated E)
  into_validated o now = record { core = o.core; stage = record { validated_at = now } }

  unfoldable pub into_risk_checked :
      PipelineOrder E (Validated E) → RiskApprovalStamp E → PipelineOrder E (RiskChecked E)
  into_risk_checked o stamp = record {
    core = o.core;
    stage = record { validated_at = o.stage.validated_at; approval = stamp };
  }

  unfoldable pub into_routed :
      PipelineOrder E (RiskChecked E) → RoutingAssignment E → PipelineOrder E (Routed E)
  into_routed o routing = record {
    core = o.core;
    stage = record {
      validated_at = o.stage.validated_at;
      approval = o.stage.approval;
      routing = routing;
    };
  }

  -- The accessors of a routed order.
  abbrev pub risk_approval : PipelineOrder E (Routed E) → RiskApprovalStamp E
  risk_approval o = o.stage.approval

  abbrev pub client_order_id : PipelineOrder E (Routed E) → String
  client_order_id o = o.stage.routing.client_order_id
