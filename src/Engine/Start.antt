-- ===== src/Engine/Start.antt =====
-- crates/engine-core/src/sequencer.rs: `Sequencer::new`, the start from a journal.
use feynman_engine.Prelude.{
  ℕ, ◌+◌, ◌%◌, ◌^◌, ◌≡◌, Bool, Option, none, some, not, List, [], ltb, is_empty, if◌then◌else◌,
}
use feynman_engine.Externs.{Externs}
use feynman_engine.Engine.State.{EngineStateSnapshot}
use feynman_engine.Engine.Events.{Result, ok, err, panic, journal as journal_error, SequencedEvent}
use feynman_engine.Engine.Runtime.{Runtime}
use feynman_engine.Engine.Sequencer.{Sequencer}
use feynman_engine.Engine.Restore.{restore_client_order_generators}

-- The methods of the core and of the journal that only the start calls.
pub record Startup (E : Externs) (R : Runtime E) : Type 0 where
  pub load : R.Journal → Result (Option (ℕ × EngineStateSnapshot E))  -- `load_latest_snapshot`
  pub latest_sequence_id : R.Journal → Result ℕ
  pub replay_from : ℕ → R.Journal → Result (List (SequencedEvent E))
  pub restore_snapshot : EngineStateSnapshot E → R.Core → R.Core × Result Unit
  pub snapshot : ℕ → E.DateTime → R.Core → EngineStateSnapshot E

-- What the start relies on: a load that succeeds gives the latest snapshot, a restored core has
-- the snapshot's state, and a snapshot of the core has the core's state.
pub record StartupLaws (E : Externs) (R : Runtime E) (S : Startup E R) : Type 0 where
  pub load_latest :
      (j : R.Journal) (latest : Option (ℕ × EngineStateSnapshot E))
      → S.load j ≡ ok latest
      → R.load_latest_snapshot j ≡ latest
  pub state-restore_snapshot :
      (snapshot : EngineStateSnapshot E) (c : R.Core)
      → (S.restore_snapshot snapshot c).1 ≡ ok tt
      → R.state (S.restore_snapshot snapshot c).0 ≡ snapshot.state

infixl 5 ◌>>=◌
abbrev pub ◌>>=◌ : {A B : Type 0} → Result A → (A → Result B) → Result B
ok a >>= f = f a
err e >>= f = err e
panic text >>= f = panic text

module _ (E : Externs) (R : Runtime E) (S : Startup E R) where
  abbrev pub restored : R.Core × Result Unit → Result R.Core
  restored (core, ok done) = ok core
  restored (core, err e) = err e
  restored (core, panic text) = panic text

  abbrev pub restore_core : Option (ℕ × EngineStateSnapshot E) → R.Core → Result R.Core
  restore_core none core = ok core
  restore_core (some (sequence, snapshot)) core = restored (S.restore_snapshot snapshot core)

  -- `has_unapplied_journal_tail`
  unfoldable pub has_tail : Option (ℕ × EngineStateSnapshot E) → ℕ → R.Journal → Result Bool
  has_tail (some (sequence, snapshot)) journal_sequence journal = ok (ltb sequence journal_sequence)
  has_tail none journal_sequence journal = do
    events ← S.replay_from 0 journal
    ok (not (is_empty events))

  abbrev pub current_sequence : Option (ℕ × EngineStateSnapshot E) → R.Core → ℕ
  current_sequence none core = (R.state core).last_sequence_id
  current_sequence (some (sequence, snapshot)) core = sequence

  abbrev pub cached : Option (ℕ × EngineStateSnapshot E) → R.Core → EngineStateSnapshot E
  cached none core = S.snapshot (R.state core).last_sequence_id (R.state core).last_updated core
  cached (some (sequence, snapshot)) core = snapshot

  unfoldable pub require_applied : Bool → Result Unit
  require_applied tail =
      if tail
      then err (
          journal_error
            "journal contains unapplied events beyond the latest persisted snapshot; replay bootstrap is not implemented yet")
      else ok tt

  -- `Sequencer::new`, with `tx` set by `with_venue_submit_tx`. A sequence number that overflows
  -- wraps around.
  unfoldable pub start :
      R.Core → R.Journal → R.Prices → ℕ → Option R.Sender → Result (Sequencer E R)
  unfolding restore_client_order_generators has_tail require_applied
  start core journal prices restart_epoch tx = do
    latest ← S.load journal
    journal_sequence ← S.latest_sequence_id journal
    restored ← restore_core latest core
    tail ← has_tail latest journal_sequence journal
    applied ← require_applied tail
    gens ← restore_client_order_generators E (R.state restored) restart_epoch
    ok (record {
      core = restored;
      journal = journal;
      prices = prices;
      next_sequence = (current_sequence latest restored + 1) % 2 ^ 64;
      snapshot_cache = cached latest restored;
      client_order_id_generators = gens;
      restart_epoch = restart_epoch;
      venue_submit_tx = tx;
      replies = [];
    })
