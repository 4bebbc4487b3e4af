-- ===== src/Engine/Sequencer.antt =====
-- crates/engine-core/src/sequencer.rs: the state of the sequencer, the outcome of a command, and the
-- steps that its handlers share. A step returns the sequencer with its result, because a handler
-- that fails may have written before. Answers on one-shot channels are logged, the newest first.
use feynman_engine.Prelude.{
  ℕ, Bool, true, false, Option, none, some, String, List, [], ◌∷◌, Map, lookup, insert,
  if◌then◌else◌,
}
use feynman_engine.Prelude.Text.{◌++◌}
use feynman_engine.Externs.{Externs}
use feynman_engine.Lifecycle.State.{Fill}
use feynman_engine.Engine.State.{EngineState, EngineStateSnapshot, OrderAck, OrderRecord, SignalAck}
use feynman_engine.Engine.Events.{EngineEvent, invalid_transition, Result, ok, err, panic}
use feynman_engine.Engine.Ids.{ClientOrderIdGenerator, or_new, next}
use feynman_engine.Engine.Runtime.{Runtime}

pub data Reply (E : Externs) : Type 0 where
  order_reply : Result (OrderAck E) → Reply E
  signal_reply : Result (SignalAck E) → Reply E
  limits_reply : Result Unit → Reply E
  snapshot_reply : EngineStateSnapshot E → Reply E
  shutdown_reply : Reply E

pub record Sequencer (E : Externs) (R : Runtime E) : Type 0 where
  pub core : R.Core
  pub journal : R.Journal
  pub prices : R.Prices
  pub next_sequence : ℕ
  pub snapshot_cache : EngineStateSnapshot E
  pub client_order_id_generators : Map ClientOrderIdGenerator
  pub restart_epoch : ℕ
  pub venue_submit_tx : Option R.Sender
  pub replies : List (ℕ × Reply E)

pub record CommandOutcome (E : Externs) : Type 0 where
  pub events : List (EngineEvent E)
  pub state_mutated : Bool
  pub shutdown_reply : Option ℕ

abbrev pub Step : (E : Externs) → Runtime E → Type 0 → Type 0
Step E R A = Sequencer E R → Sequencer E R × Result A

module _ {E : Externs} {R : Runtime E} {A B : Type 0} where
  abbrev pub continue : Result A → (A → Step E R B) → Step E R B
  continue (ok a) f s = f a s
  continue (err e) f s = (s, err e)
  continue (panic text) f s = (s, panic text)

  infixl 5 ◌>>=◌
  abbrev pub ◌>>=◌ : Step E R A → (A → Step E R B) → Step E R B
  (m >>= f) s = continue (m s).1 f (m s).0

module _ (E : Externs) where
  -- `CommandOutcome::default`, `events`, `mutated` and `shutdown`
  abbrev pub unchanged : CommandOutcome E
  unchanged = record { events = []; state_mutated = false; shutdown_reply = none }

  abbrev pub only_events : List (EngineEvent E) → CommandOutcome E
  only_events es = record { events = es; state_mutated = false; shutdown_reply = none }

  abbrev pub mutated : List (EngineEvent E) → CommandOutcome E
  mutated es = record { events = es; state_mutated = true; shutdown_reply = none }

  abbrev pub shutting_down : ℕ → CommandOutcome E
  shutting_down reply = record { events = []; state_mutated = false; shutdown_reply = some reply }

  -- `fills.iter().map(|fill| fill.qty).fold(acc, …)`
  unfoldable pub sum_qty : E.Decimal → List (Fill E) → E.Decimal
  sum_qty acc [] = acc
  sum_qty acc (f ∷ fs) = sum_qty (E.add acc f.qty) fs

  unfoldable pub remaining_qty : OrderRecord E → Result E.Decimal
  unfolding sum_qty
  remaining_qty r =
      let remaining = E.sub r.core.qty (sum_qty E.zero_dec r.fills) in
      if E.lt remaining E.zero_dec
      then err (
          invalid_transition
            ("order " ++ (r.core.id ++ (" overfilled by " ++ E.display (E.abs remaining)))))
      else ok remaining

  module _ (R : Runtime E) where
    -- The core's method `f`, with `?` on its result.
    abbrev pub call : {A : Type 0} → (R.Core → R.Core × Result A) → Step E R A
    call f s = (record s { core = (f s.core).0 }, (f s.core).1)

    abbrev pub answer : ℕ → Reply E → Sequencer E R → Sequencer E R
    answer channel reply s = record s { replies = (channel, reply) ∷ s.replies }

    unfoldable pub find_existing_ack : String → Sequencer E R → Option (OrderAck E)
    find_existing_ack id s =
        let state = R.state s.core in
        elim (lookup id state.orders) [
          | none ↦ none
          | some entry ↦ lookup entry.client_order_id state.idempotency_cache
        ]

    unfoldable pub next_client_order_id :
        String → E.DateTime → Sequencer E R → String × Sequencer E R
    next_client_order_id agent now s =
        let gen = or_new (lookup agent s.client_order_id_generators) agent s.restart_epoch in
        (
          (next E gen now).0,
          record s {
            client_order_id_generators =
                insert agent (next E gen now).1 s.client_order_id_generators;
          },
        )

    -- A write to the record of an order, through `state_mut().orders.get_mut`.
    abbrev pub write_record : String → OrderRecord E → Sequencer E R → Sequencer E R
    write_record id entry s =
        let state = R.state s.core in
        record s {
          core = R.set_state (record state { orders = insert id entry state.orders }) s.core;
        }

    -- The state with the metadata of a commit, in the snapshot and in the core.
    abbrev stamped : ℕ → E.DateTime → EngineState E → EngineState E
    stamped sequence_id now state = record state {
      last_sequence_id = sequence_id;
      last_updated = now;
    }

    abbrev pub update_metadata : ℕ → E.DateTime → Sequencer E R → Sequencer E R
    update_metadata sequence_id now s = record s {
      core = R.set_state (stamped sequence_id now (R.state s.core)) s.core;
    }

    abbrev pub snapshot_for_commit : ℕ → E.DateTime → Sequencer E R → EngineStateSnapshot E
    snapshot_for_commit sequence_id now s = record {
      state = stamped sequence_id now (R.state s.core);
      sequence_id = sequence_id;
      snapshot_at = now;
    }
