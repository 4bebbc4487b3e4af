-- ===== src/Lifecycle/State.antt =====
-- crates/types/src/pipeline.rs: the engine-side `OrderState`, and the `VenueState` machine.
use feynman_engine.Prelude.{ℕ, Bool, true, false, String}
use feynman_engine.Externs.{Externs}
use feynman_engine.Types.Order.{Side}

pub data OrderState : Type 0 where
  pending submitted accepted partially_filled filled cancelled rejected expired : OrderState

unfoldable pub is_terminal_state : OrderState → Bool
is_terminal_state OrderState.pending = false
is_terminal_state OrderState.submitted = false
is_terminal_state OrderState.accepted = false
is_terminal_state OrderState.partially_filled = false
is_terminal_state OrderState.filled = true
is_terminal_state OrderState.cancelled = true
is_terminal_state OrderState.rejected = true
is_terminal_state OrderState.expired = true

unfoldable pub is_active_state : OrderState → Bool
is_active_state OrderState.pending = false
is_active_state OrderState.submitted = true
is_active_state OrderState.accepted = true
is_active_state OrderState.partially_filled = true
is_active_state OrderState.filled = false
is_active_state OrderState.cancelled = false
is_active_state OrderState.rejected = false
is_active_state OrderState.expired = false

pub record Fill (E : Externs) : Type 0 where
  pub order_id : String
  pub venue_order_id : String
  pub instrument_id : String
  pub side : Side
  pub qty : E.Decimal
  pub price : E.Decimal
  pub fee : E.Decimal
  pub filled_at : E.DateTime
  pub is_maker : Bool

pub record FillSummary (E : Externs) : Type 0 where
  pub filled_qty : E.Decimal
  pub remaining_qty : E.Decimal
  pub avg_fill_price : E.Decimal
  pub total_fee : E.Decimal
  pub fill_count : ℕ

pub data CancelReason : Type 0 where
  user_requested : CancelReason
  agent_requested : String → CancelReason
  risk_gate_killed circuit_breaker_tripped linked_order_filled timeout : CancelReason
  insufficient_balance : CancelReason
  venue_cancelled : String → CancelReason
  self_trade_prevention_triggered : CancelReason

pub data VenueState (E : Externs) : Type 0 where
  submitted : VenueState E
  accepted : E.DateTime → VenueState E
  triggered : E.DateTime → VenueState E
  partially_filled : FillSummary E → VenueState E
  filled : FillSummary E → E.DateTime → VenueState E
  venue_rejected : String → E.DateTime → VenueState E
  cancelled : CancelReason → FillSummary E → E.DateTime → VenueState E
  expired : FillSummary E → E.DateTime → VenueState E

pub data VenueStateError (E : Externs) : Type 0 where
  invalid_transition : VenueState E → VenueState E → VenueStateError E
  invalid_fill : String → VenueStateError E

-- `Result<T, VenueStateError>`
pub data Outcome {ℓ} (E : Externs) (A : Type ℓ) : Type ℓ where
  ok : A → Outcome E A
  err : VenueStateError E → Outcome E A

infixl 5 ◌>>=◌
abbrev pub ◌>>=◌ {ℓ κ} :
    {E : Externs} {A : Type ℓ} {B : Type κ} → Outcome E A → (A → Outcome E B) → Outcome E B
ok a >>= f = f a
err e >>= f = err e

module _ (E : Externs) where
  abbrev pub is_terminal : VenueState E → Bool
  is_terminal (filled _ _) = true
  is_terminal (venue_rejected _ _) = true
  is_terminal (cancelled _ _ _) = true
  is_terminal (expired _ _) = true
  is_terminal _ = false

  abbrev pub is_live : VenueState E → Bool
  is_live (accepted _) = true
  is_live (partially_filled _) = true
  is_live _ = false

  -- The table of `try_transition`.
  unfoldable pub valid : VenueState E → VenueState E → Bool
  valid submitted (accepted _) = true
  valid submitted (triggered _) = true
  valid submitted (venue_rejected _ _) = true
  valid (triggered _) (accepted _) = true
  valid (accepted _) (partially_filled _) = true
  valid (accepted _) (filled _ _) = true
  valid (accepted _) (cancelled _ _ _) = true
  valid (accepted _) (expired _ _) = true
  valid (partially_filled _) (partially_filled _) = true
  valid (partially_filled _) (filled _ _) = true
  valid (partially_filled _) (cancelled _ _ _) = true
  valid _ _ = false

  abbrev transition : Bool → VenueState E → VenueState E → Outcome E (VenueState E)
  transition true from to = ok to
  transition false from to = err (invalid_transition from to)

  unfoldable pub try_transition : VenueState E → VenueState E → Outcome E (VenueState E)
  unfolding valid
  try_transition from to = transition (valid from to) from to
