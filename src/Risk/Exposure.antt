-- ===== src/Risk/Exposure.antt =====
-- crates/risk/src/lib.rs: the exposures that `AgentRiskManager::evaluate` projects for an order.
use feynman_engine.Prelude.{
  ℕ, ◌+◌, ◌%◌, ◌^◌, Option, none, some, Bool, true, false, List, [], ◌∷◌, find, any, str_eq,
  if◌then◌else◌,
}
use feynman_engine.Externs.{Externs, le}
use feynman_engine.Projection.{project_net_and_gross, signed_delta}
use feynman_engine.Types.Order.{OrderCore}
use feynman_engine.Types.Portfolio.{
  FirmBook, InstrumentExposure, VenueExposure, AgentExposure, AgentAllocation,
}

abbrev is_none {ℓ} : {A : Type ℓ} → Option A → Bool
is_none none = true
is_none (some _) = false

-- `u32::from(bool)`
abbrev bit : Bool → ℕ
bit true = 1
bit false = 0

module _ (E : Externs) where
  open E use {Decimal, zero_dec, add, sub, mul, neg, abs, lt}

  -- What `evaluate` computes before it checks anything.
  pub record Projected : Type 0 where
    pub order_notional : Decimal
    pub signed_order_notional : Decimal
    pub agent_instrument_gross_notional : Decimal
    pub agent_gross_notional : Decimal
    pub agent_free_capital : Decimal
    pub instrument_net_qty : Decimal
    pub instrument_gross_qty : Decimal
    pub instrument_gross_notional : Decimal
    pub venue_notional : Decimal
    pub venue_positions : ℕ

  abbrev pub signed_value_from_net : Decimal → Decimal → Decimal
  signed_value_from_net net_qty absolute_value =
      if le E zero_dec net_qty then absolute_value else neg absolute_value

  -- `map_or(Decimal::ZERO, f)`
  abbrev pub zero_or : {A : Type 0} → Option A → (A → Decimal) → Decimal
  zero_or none f = zero_dec
  zero_or (some a) f = f a

  abbrev pub instrument_exposure : FirmBook E → OrderCore E → Option (InstrumentExposure E)
  instrument_exposure firm_book core =
      find (λ e. str_eq e.instrument core.instrument_id) firm_book.instruments

  abbrev pub agent_exposure : Option (InstrumentExposure E) → OrderCore E → Option (AgentExposure E)
  agent_exposure none core = none
  agent_exposure (some e) core = find (λ a. str_eq a.agent core.agent_id) e.by_agent

  abbrev pub venue_exposure : Option (InstrumentExposure E) → OrderCore E → Option (VenueExposure E)
  venue_exposure none core = none
  venue_exposure (some e) core = find (λ v. str_eq v.venue core.venue_id) e.by_venue

  -- The notional of the venue, summed over the entries of one instrument and then over all.
  venue_sum : OrderCore E → Decimal → List (VenueExposure E) → Decimal
  venue_sum core acc [] = acc
  venue_sum core acc (v ∷ vs) =
      venue_sum core (if str_eq v.venue core.venue_id then add acc (abs v.notional_usd) else acc) vs

  unfoldable pub current_venue_notional :
      OrderCore E → Decimal → List (InstrumentExposure E) → Decimal
  unfolding venue_sum
  current_venue_notional core acc [] = acc
  current_venue_notional core acc (e ∷ es) =
      current_venue_notional core (venue_sum core acc e.by_venue) es

  venue_count : OrderCore E → List (InstrumentExposure E) → ℕ
  venue_count core [] = 0
  venue_count core (e ∷ es) =
      bit (any (λ v. str_eq v.venue core.venue_id) e.by_venue) + venue_count core es

  -- `count() as u32`
  unfoldable pub current_venue_positions : OrderCore E → List (InstrumentExposure E) → ℕ
  unfolding venue_count
  current_venue_positions core es = venue_count core es % 2 ^ 32

  -- The gross notional of one entry after the order.
  abbrev pub gross_after : Decimal → Decimal → Decimal → Decimal
  gross_after net gross delta = (project_net_and_gross E net gross delta).1

  unfoldable pub project : OrderCore E → Decimal → FirmBook E → AgentAllocation E → Projected
  project core price firm_book allocation =
      let order_notional = mul core.qty price in
      let exposure = instrument_exposure firm_book core in
      let agent = agent_exposure exposure core in
      let venue = venue_exposure exposure core in
      let agent_gross = zero_or agent (λ a. abs a.notional_usd) in
      let agent_net = zero_or agent (λ a. signed_value_from_net a.net_qty (abs a.notional_usd)) in
      let venue_gross = zero_or venue (λ v. abs v.notional_usd) in
      let venue_net = zero_or venue (λ v. signed_value_from_net v.net_qty (abs v.notional_usd)) in
      let signed_qty = signed_delta E core.side core.qty in
      let signed_notional = signed_delta E core.side order_notional in
      let quantities =
        project_net_and_gross E (zero_or exposure (λ e. e.net_qty))
          (zero_or exposure (λ e. e.gross_qty)) signed_qty in
      let agent_instrument = gross_after agent_net agent_gross signed_notional in
      let agent_total = add (sub allocation.used_capital agent_gross) agent_instrument in
      record {
        order_notional = order_notional;
        signed_order_notional = signed_notional;
        agent_instrument_gross_notional = agent_instrument;
        agent_gross_notional = agent_total;
        agent_free_capital = sub allocation.allocated_capital agent_total;
        instrument_net_qty = quantities.0;
        instrument_gross_qty = quantities.1;
        instrument_gross_notional =
            gross_after (zero_or exposure (λ e. e.net_notional_usd))
              (zero_or exposure (λ e. e.gross_notional_usd)) signed_notional;
        venue_notional =
            add (sub (current_venue_notional core zero_dec firm_book.instruments) venue_gross)
              (gross_after venue_net venue_gross signed_notional);
        venue_positions =
            (current_venue_positions core firm_book.instruments + bit (is_none venue)) % 2 ^ 32;
      }
