-- ===== src/Engine/Durable.antt =====
-- crates/engine-core/src/sequencer.rs: what is in the journal when the sequencer runs.
use feynman_engine.Prelude.{
  Option, none, refl, ℕ, suc, ◌+◌, ◌%◌, ◌^◌, ◌<◌, ◌≤◌, ◌≡◌, false, some, List, [], ◌∷◌, length, All,
  arith,
}
use feynman_engine.Externs.{Externs}
use feynman_engine.Engine.State.{EngineStateSnapshot}
use feynman_engine.Engine.Events.{
  Result, ok, err, panic, SequencerCommand, submit_order, submit_signal, on_venue_ack,
  on_venue_submit_failed, on_venue_cancelled, on_fill, on_reconciliation, mark_to_market,
  adjust_limits, pause_agent, resume_agent, halt_all, reset_circuit_breaker, snapshot, shutdown,
}
use feynman_engine.Engine.Runtime.{Runtime, RuntimeLaws}
use feynman_engine.Engine.Sequencer.{
  Sequencer, Step, continue, CommandOutcome, next_client_order_id, snapshot_for_commit,
}
use feynman_engine.Engine.Submit.{handle_submit_order, accept}
use feynman_engine.Engine.Venue.{
  handle_venue_ack, handle_venue_submit_failed, handle_venue_cancelled, handle_fill,
  handle_reconciliation,
}
use feynman_engine.Engine.Process.{
  handle_command, should_commit, next_id, sequenced, commit, process_command,
  drain_pending_commands, finish_or, run,
}

module _ (E : Externs) (R : Runtime E) (L : RuntimeLaws E R) where
  -- The engine's state is that of the latest snapshot in the journal, which the sequencer also
  -- hands out and which is older than the next sequence number.
  abbrev pub IsDurable : Sequencer E R → Type 0
  IsDurable s =
      (R.load_latest_snapshot s.journal ≡ some (s.snapshot_cache.sequence_id, s.snapshot_cache))
      × (R.state s.core ≡ s.snapshot_cache.state)
      × (s.snapshot_cache.sequence_id < s.next_sequence)

  -- The same, with room for `k` more sequence numbers in 64 bits.
  abbrev pub Lasts : ℕ → Sequencer E R → Type 0
  Lasts k s = IsDurable s × (s.next_sequence + k < 2 ^ 64)

  -- If the command changes limits, then the core takes them.
  abbrev pub IsTaken : SequencerCommand E → Type 0
  IsTaken (adjust_limits agent limits respond) =
      (c : R.Core) → (R.adjust_limits agent limits c).1 ≡ ok tt
  IsTaken _ = Unit

  abbrev pub IsTakenEntry : SequencerCommand E × E.DateTime → Type 0
  IsTakenEntry entry = IsTaken entry.0

  abbrev Keeps : Sequencer E R → Sequencer E R × Result (CommandOutcome E) → Type 0
  Keeps s (s', r) =
      (s'.journal ≡ s.journal)
      × (s'.snapshot_cache ≡ s.snapshot_cache)
      × (s'.next_sequence ≡ s.next_sequence)

  -- An outcome that is not committed leaves the state as it was.
  abbrev Quiet : Sequencer E R → Sequencer E R → Result (CommandOutcome E) → Type 0
  Quiet s s' (ok outcome) = should_commit E R outcome ≡ false → R.state s'.core ≡ R.state s.core
  Quiet s s' (err _) = Unit
  Quiet s s' (panic _) = Unit

  submit-Quiet :
      (order : _) (respond : ℕ) (now : E.DateTime) (s : Sequencer E R)
      → let r = handle_submit_order E R order respond now s in Keeps s r × Quiet s r.0 r.1
  unfolding handle_submit_order next_client_order_id accept
  submit-Quiet order respond now s = ground arith

  venue-Quiet :
      (id text : _) (time : E.DateTime) (s : Sequencer E R)
      → let acked = handle_venue_ack E R id text time s in
        let failed = handle_venue_submit_failed E R id text time s in
        let gone = handle_venue_cancelled E R id text time s in
        (Keeps s acked × Quiet s acked.0 acked.1)
        × (Keeps s failed × Quiet s failed.0 failed.1)
        × (Keeps s gone × Quiet s gone.0 gone.1)
  unfolding handle_venue_ack handle_venue_submit_failed handle_venue_cancelled
  venue-Quiet id text time s = ground arith

  fill-Quiet :
      (fill : _) (now : E.DateTime) (s : Sequencer E R)
      → let r = handle_fill E R fill now s in Keeps s r × Quiet s r.0 r.1
  unfolding handle_fill
  fill-Quiet fill now s = ground arith

  command-Quiet :
      (command : SequencerCommand E) (now : E.DateTime) (s : Sequencer E R)
      → IsTaken command
      → let r = handle_command E R command now s in Keeps s r × Quiet s r.0 r.1
  unfolding handle_command handle_reconciliation
  command-Quiet (submit_order order respond) now s h = submit-Quiet order respond now s
  command-Quiet (submit_signal signal respond) now s h = ground arith
  command-Quiet (on_venue_ack id text time) now s h = (venue-Quiet id text time s).0
  command-Quiet (on_venue_submit_failed id reason) now s h = (venue-Quiet id reason now s).1
  command-Quiet (on_venue_cancelled id reason time) now s h = (venue-Quiet id reason time s).2
  command-Quiet (on_fill fill) now s h = fill-Quiet fill now s
  command-Quiet (on_reconciliation report) now s h = ground arith
  command-Quiet mark_to_market now s h = ground arith
  command-Quiet (adjust_limits agent limits respond) now s h = ground (arith, h s.core)
  command-Quiet (pause_agent agent reason) now s h = ground arith
  command-Quiet (resume_agent agent) now s h = ground arith
  command-Quiet (halt_all reason) now s h = ground arith
  command-Quiet (reset_circuit_breaker breaker) now s h = ground arith
  command-Quiet (snapshot respond) now s h = ground arith
  command-Quiet (shutdown respond) now s h = ground arith

  abbrev LastsIf : {A : Type 0} → ℕ → Sequencer E R × Result A → Type 0
  LastsIf k (s, ok a) = Lasts k s
  LastsIf k (s, err e) = Unit
  LastsIf k (s, panic text) = Unit

  persist-Lasts :
      (k : ℕ) (s t : Sequencer E R) (outcome : CommandOutcome E) (now : E.DateTime)
      → Lasts (suc k) s
      → Keeps (next_id E R s).1 (t, ok outcome)
      → Quiet (next_id E R s).1 t (ok outcome)
      → LastsIf k (commit E R (ok outcome) s.next_sequence now t)
  persist-Lasts k s t outcome now (d, room) keeps q =
      let snapshot = snapshot_for_commit E R s.next_sequence now t in
      let small : (s.next_sequence + 1) % 2 ^ 64 ≡ s.next_sequence + 1 = omega (arith, room) in
      let newest : (q : ℕ) (old : EngineStateSnapshot E)
          → R.load_latest_snapshot t.journal ≡ some (q, old)
          → q ≤ snapshot.sequence_id =
        λ q old e. ground arith in
      ground (
        arith,
        small,
        L.state-set_state snapshot.state t.core,
        L.load_persisted (sequenced E R s.next_sequence now outcome.events) snapshot t.journal
            newest,
      )

  commit-Lasts :
      (k : ℕ) (s t : Sequencer E R) (r : Result (CommandOutcome E)) (now : E.DateTime)
      → Lasts (suc k) s
      → Keeps (next_id E R s).1 (t, r)
      → Quiet (next_id E R s).1 t r
      → LastsIf k (commit E R r s.next_sequence now t)
  commit-Lasts k s t (ok outcome) now d keeps q = persist-Lasts k s t outcome now d keeps q
  commit-Lasts k s t (err e) now d keeps q = tt
  commit-Lasts k s t (panic text) now d keeps q = tt

  -- A command that succeeds leaves the engine durable.
  process-Lasts :
      (k : ℕ) (command : SequencerCommand E) (now : E.DateTime) (s : Sequencer E R)
      → IsTaken command
      → Lasts (suc k) s
      → LastsIf k (process_command E R command now s)
  unfolding process_command
  process-Lasts k command now s h d =
      let numbered = next_id E R s in
      let handled = handle_command E R command now numbered.1 in
      let (keeps, q) = command-Quiet command now numbered.1 h in
      commit-Lasts k s handled.0 handled.1 now d keeps q

  bind-Lasts :
      {A B : Type 0} (k j : ℕ) (m : Sequencer E R × Result A) (f : A → Step E R B)
      → LastsIf k m
      → ((a : A) (s : Sequencer E R) → Lasts k s → LastsIf j (f a s))
      → LastsIf j (continue m.1 f m.0)
  bind-Lasts k j (s, ok a) f d keep = keep a s d
  bind-Lasts k j (s, err e) f d keep = tt
  bind-Lasts k j (s, panic text) f d keep = tt

  drain-Lasts :
      (commands : List (SequencerCommand E × E.DateTime)) (s : Sequencer E R)
      → All IsTakenEntry commands
      → Lasts (length commands) s
      → LastsIf 0 (drain_pending_commands E R commands s)
  unfolding drain_pending_commands
  drain-Lasts [] s h d = d
  drain-Lasts (entry ∷ rest) s h d =
      bind-Lasts (length rest) 0 (process_command E R entry.0 entry.1 s)
        (λ dropped. drain_pending_commands E R rest)
        (process-Lasts (length rest) entry.0 entry.1 s h.0 d) (λ dropped t. drain-Lasts rest t h.1)

  -- The snapshot that a run returns is the one that the sequencer holds, and it is in the journal.
  abbrev Final : Sequencer E R × Result (EngineStateSnapshot E) → Type 0
  Final (s, ok final) = Lasts 0 s × (final ≡ s.snapshot_cache)
  Final (s, err e) = Unit
  Final (s, panic text) = Unit

  bind-Final :
      {A : Type 0} (k : ℕ) (m : Sequencer E R × Result A) (f : A → Step E R (EngineStateSnapshot E))
      → LastsIf k m
      → ((a : A) (s : Sequencer E R) → Lasts k s → Final (f a s))
      → Final (continue m.1 f m.0)
  bind-Final k (s, ok a) f d keep = keep a s d
  bind-Final k (s, err e) f d keep = tt
  bind-Final k (s, panic text) f d keep = tt

  finish-Final :
      (later : Step E R (EngineStateSnapshot E)) (rest : _) (reply : Option ℕ) (s : Sequencer E R)
      → All IsTakenEntry rest
      → ((t : Sequencer E R) → Lasts (length rest) t → Final (later t))
      → Lasts (length rest) s
      → Final (finish_or E R later rest reply s)
  finish-Final later rest none s h keep d = keep s d
  finish-Final later rest (some respond) s h keep d =
      bind-Final 0 (drain_pending_commands E R rest s) _ (drain-Lasts rest s h d)
        (λ drained t d'. (d', refl))

  run-Final :
      (commands : _) (s : Sequencer E R)
      → All IsTakenEntry commands
      → Lasts (length commands) s
      → Final (run E R commands s)
  unfolding run
  run-Final [] s h d = (d, refl)
  run-Final (entry ∷ rest) s h d =
      bind-Final (length rest) (process_command E R entry.0 entry.1 s)
        (finish_or E R (run E R rest) rest) (process-Lasts (length rest) entry.0 entry.1 s h.0 d)
        (λ reply t. finish-Final (run E R rest) rest reply t h.1 (λ u. run-Final rest u h.1))

  final_lem :
      (out : Sequencer E R × Result (EngineStateSnapshot E)) (final : EngineStateSnapshot E)
      → Final out
      → out.1 ≡ ok final
      → (R.load_latest_snapshot out.0.journal ≡ some (final.sequence_id, final))
        × (R.state out.0.core ≡ final.state)
        × (final.sequence_id < out.0.next_sequence)
        × (out.0.next_sequence < 2 ^ 64)
  final_lem (s, ok kept) final f e = ground arith
  final_lem (s, err _) final f e = ground arith
  final_lem (s, panic _) final f e = ground arith

  -- A sequencer whose state is that of the latest snapshot in the journal runs any commands, with
  -- room for their sequence numbers in 64 bits, of which those that change limits are taken by the
  -- core. If it ends without an error, then the snapshot that it returns is the latest one in the
  -- journal and holds the state that the engine ended with. Its sequence number is less than the
  -- next one to be given, which still fits in 64 bits.
  pub run-IsDurable :
      (commands : List (SequencerCommand E × E.DateTime)) (s : Sequencer E R)
      (final : EngineStateSnapshot E)
      → IsDurable s
      → s.next_sequence + length commands < 2 ^ 64
      → All IsTakenEntry commands
      → (run E R commands s).1 ≡ ok final
      → let s' = (run E R commands s).0 in
        (R.load_latest_snapshot s'.journal ≡ some (final.sequence_id, final))
        × (R.state s'.core ≡ final.state)
        × (final.sequence_id < s'.next_sequence)
        × (s'.next_sequence < 2 ^ 64)
  run-IsDurable commands s final d room taken e =
      final_lem (run E R commands s) final (run-Final commands s taken (d, room)) e
