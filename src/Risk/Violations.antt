-- ===== src/Risk/Violations.antt =====
-- crates/risk/src/lib.rs: the records that a failed check leaves.
use feynman_engine.Prelude.{String}
use feynman_engine.Prelude.Text.{◌++◌}
use feynman_engine.Externs.{Externs}
use feynman_engine.Types.Limits.{RiskViolation, hard, soft}

pub record ResizeCandidate (E : Externs) : Type 0 where
  pub new_qty : E.Decimal
  pub reason : String
  pub warning : RiskViolation

module _ (E : Externs) where
  open E use {Decimal, display}

  abbrev pub violation : String → Decimal → Decimal → String → String → RiskViolation
  violation check_name current_value limit suggested_action reason = record {
    check_name = check_name;
    violation_type = hard;
    current_value = display current_value;
    limit = display limit;
    suggested_action = suggested_action ++ ": " ++ reason;
  }

  abbrev pub soft_violation : String → Decimal → Decimal → String → String → RiskViolation
  soft_violation check_name current_value limit suggested_action reason = record {
    check_name = check_name;
    violation_type = soft;
    current_value = display current_value;
    limit = display limit;
    suggested_action = suggested_action ++ ": " ++ reason;
  }

abbrev pub string_violation : String → String → String → String → String → RiskViolation
string_violation check_name current_value limit suggested_action reason = record {
  check_name = check_name;
  violation_type = hard;
  current_value = current_value;
  limit = limit;
  suggested_action = suggested_action ++ ": " ++ reason;
}
