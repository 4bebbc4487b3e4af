-- ===== src/Engine/Resume.antt =====
-- crates/engine-core/src/sequencer.rs: a start from the journal that a run left.
use feynman_engine.Prelude.{
  ℕ, ◌+◌, ◌%◌, ◌^◌, ◌<◌, ◌≤◌, ltb, ◌≡◌, refl, sym, ap, ◌∙◌, true, false, Option, some, List, [],
  Map, length, All, arith,
}
use feynman_engine.Externs.{Externs}
use feynman_engine.Engine.State.{EngineStateSnapshot}
use feynman_engine.Engine.Events.{Result, ok, err, panic, EngineError, SequencerCommand}
use feynman_engine.Engine.Ids.{ClientOrderIdGenerator}
use feynman_engine.Engine.Runtime.{Runtime, RuntimeLaws}
use feynman_engine.Engine.Sequencer.{Sequencer}
use feynman_engine.Engine.Process.{run}
use feynman_engine.Engine.Durable.{IsDurable, IsTakenEntry, run-IsDurable}
use feynman_engine.Engine.Restore.{restore_client_order_generators}
use feynman_engine.Engine.Start.{Startup, StartupLaws, restored, has_tail, require_applied, start}

module _ (E : Externs) (R : Runtime E) (S : Startup E R) where
  restored_ok :
      (answer : R.Core × Result Unit) → answer.1 ≡ ok tt → restored E R S answer ≡ ok answer.0
  restored_ok (core, ok done) h = refl
  restored_ok (core, err e) h = absurd (ground arith)
  restored_ok (core, panic text) h = absurd (ground arith)

  module _ (L : RuntimeLaws E R) (M : StartupLaws E R S) where
    module _ (core : R.Core) (journal : R.Journal) (prices : R.Prices) (epoch : ℕ)
        (tx : Option R.Sender) (snapshot : EngineStateSnapshot E) (sequence : ℕ)
        (gens : Map ClientOrderIdGenerator) where
      -- The sequencer that starts from `snapshot`.
      abbrev continued : Sequencer E R
      continued = record {
        core = (S.restore_snapshot snapshot core).0;
        journal = journal;
        prices = prices;
        next_sequence = (snapshot.sequence_id + 1) % 2 ^ 64;
        snapshot_cache = snapshot;
        client_order_id_generators = gens;
        restart_epoch = epoch;
        venue_submit_tx = tx;
        replies = [];
      }

      start_from :
          S.load journal ≡ ok (some (snapshot.sequence_id, snapshot))
          → S.latest_sequence_id journal ≡ ok sequence
          → (S.restore_snapshot snapshot core).1 ≡ ok tt
          → restore_client_order_generators E snapshot.state epoch ≡ ok gens
          → (ltb snapshot.sequence_id sequence ≡ false
              → start E R S core journal prices epoch tx ≡ ok continued)
            × (ltb snapshot.sequence_id sequence ≡ true
                → (e : EngineError) × (start E R S core journal prices epoch tx ≡ err e))
      unfolding start has_tail require_applied
      start_from loads reads restores resumes =
          let here = restored_ok (S.restore_snapshot snapshot core) restores in
          let same = M.state-restore_snapshot snapshot core restores in
          (
            (λ applied. rw (loads, reads, here, applied, same, resumes) refl),
            (λ tail. rw (loads, reads, here, tail) (_, refl)),
          )

    -- A run ended without an error, as in `run-IsDurable`, and the engine starts again from the
    -- journal that it left, with any core and restart epoch. The journal answers what is its latest
    -- snapshot and its latest sequence number, the core restores the run's last snapshot, and the
    -- generators of client order identifiers are restored from its state. If the journal's
    -- latest sequence number is not beyond that snapshot's, then the start succeeds and continues where the run ended: it
    -- has the state that the engine ended with, the snapshot that the run returned and the restored
    -- generators, it is durable again, and it gives the next sequence number after that snapshot's.
    -- If it is beyond that snapshot's, then the start fails.
    pub start-run :
        (commands : List (SequencerCommand E × E.DateTime)) (s : Sequencer E R)
        (final : EngineStateSnapshot E) (core : R.Core) (prices : R.Prices) (epoch : ℕ)
        (tx : Option R.Sender) (latest : Option (ℕ × EngineStateSnapshot E)) (sequence : ℕ)
        (gens : Map ClientOrderIdGenerator)
        → IsDurable E R L s
        → s.next_sequence + length commands < 2 ^ 64
        → All (IsTakenEntry E R L) commands
        → (run E R commands s).1 ≡ ok final
        → let ended = (run E R commands s).0 in
          S.load ended.journal ≡ ok latest
          → S.latest_sequence_id ended.journal ≡ ok sequence
          → (S.restore_snapshot final core).1 ≡ ok tt
          → restore_client_order_generators E final.state epoch ≡ ok gens
          → (sequence ≤ final.sequence_id
              → (s' : Sequencer E R) × (start E R S core ended.journal prices epoch tx ≡ ok s')
                × (R.state s'.core ≡ R.state ended.core)
                × (s'.snapshot_cache ≡ final)
                × (s'.client_order_id_generators ≡ gens)
                × IsDurable E R L s'
                × (s'.next_sequence ≡ final.sequence_id + 1))
            × (final.sequence_id < sequence
                → (e : EngineError) × (start E R S core ended.journal prices epoch tx ≡ err e))
    start-run commands s final core prices epoch tx latest sequence gens durable room taken ends
          loads reads restores resumes =
        let journal = (run E R commands s).0.journal in
        let (kept, state, older, bounded) =
          run-IsDurable E R L commands s final durable room taken ends in
        let loaded : S.load journal ≡ ok (some (final.sequence_id, final)) =
          loads ∙ ap ok (sym (M.load_latest journal latest loads) ∙ kept) in
        let (starts, refuses) =
          start_from core journal prices epoch tx final sequence gens loaded reads restores
            resumes in
        let small : (final.sequence_id + 1) % 2 ^ 64 ≡ final.sequence_id + 1 =
          omega (arith, older, bounded) in
        let restored_state = M.state-restore_snapshot final core restores in
        (
          (λ applied. (
            continued core journal prices epoch tx final sequence gens,
            starts (ground (arith, applied)),
            restored_state ∙ sym state,
            refl,
            refl,
            (kept, restored_state, rw small (omega arith)),
            small,
          )),
          (λ tail. refuses (ground (arith, tail))),
        )
