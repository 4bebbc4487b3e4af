-- ===== src/Engine/RestartTests.antt =====
-- A restart after the session, and client order identifiers with a dash in the agent's name.
use feynman_engine.Prelude.Text.{show_ℤ, show_ℕ, show_padded}
use feynman_engine.Prelude.Int.{◌*ℤ◌}
use feynman_engine.Engine.Ids.{new}
use feynman_engine.Prelude.{
  ℕ, ◌≡◌, refl, Option, none, some, [], ◌∷◌, arith, lookup, insert, ◌+◌, ◌<◌, ◌≤◌, ◌≢◌, String, Map,
}
use feynman_engine.Prelude.Int.{pos}
use feynman_engine.Externs.FixedPoint.{fixed_point}
use feynman_engine.Engine.State.{EngineState, EngineStateSnapshot, is_pending}
use feynman_engine.Engine.Events.{ok, err, EngineError}
use feynman_engine.Engine.Sequencer.{Sequencer, find_existing_ack, next_client_order_id}
use feynman_engine.Engine.Submit.{handle_submit_order, accept}
use feynman_engine.Engine.Venue.{handle_venue_ack}
use feynman_engine.Engine.Process.{run, process_command, handle_command, drain_pending_commands}
use feynman_engine.Engine.Durable.{IsDurable}
use feynman_engine.Engine.Ids.{
  ClientOrderIdGenerator, next, or_new, parse_agent, parse_sequence, parse_restart_epoch,
}
use feynman_engine.Engine.RoundTrip.{parse-next}
use feynman_engine.Engine.Restore.{restore_client_order_generators}
use feynman_engine.Engine.Start.{Startup, StartupLaws, start}
use feynman_engine.Engine.Resume.{start-run}
use feynman_engine.Engine.Fresh.{drawn, restored_ids_are_new}
use feynman_engine.Engine.Tests.{session, session-IsTaken, ended, ends_well}
use feynman_engine.Engine.Samples.{started, runtime, laws, idle}

abbrev generator : ClientOrderIdGenerator
generator = record { agent_prefix = "alpha-2"; restart_epoch = 7; counter = 41 }

abbrev used : String
used = (next fixed_point generator (pos 3)).0

-- A name with a dash.
parse-next_example :
    (parse_agent used ≡ some "alpha-2")
    × (parse_sequence used ≡ some 41)
    × (parse_restart_epoch used ≡ some 7)
unfolding ◌*ℤ◌
parse-next_example = parse-next fixed_point generator (pos 3) 3000 (omega arith) (omega arith) refl

abbrev restarted : EngineState fixed_point
restarted = record idle {
  idempotency_cache =
      (
        "o-9",
        record {
          order_id = "o-9";
          client_order_id = "alpha-2-3000-000041-r07";
          accepted_at = pos 3;
        },
      )
      ∷ [];
}

abbrev restored : Map ClientOrderIdGenerator
restored = ("alpha-2", record { agent_prefix = "alpha-2"; restart_epoch = 7; counter = 42 }) ∷ []

restores : restore_client_order_generators fixed_point restarted 7 ≡ ok restored
unfolding restore_client_order_generators insert lookup
restores = refl

-- The same restart epoch and the same time, and two identifiers drawn since.
restored_ids_are_new_example :
    (next fixed_point
      (drawn fixed_point (or_new (lookup "alpha-2" restored) "alpha-2" 7) (pos 3 ∷ pos 3 ∷ []))
      (pos 3)).0
    ≢ "alpha-2-3000-000041-r07"
unfolding ◌*ℤ◌ lookup
restored_ids_are_new_example =
    restored_ids_are_new fixed_point restarted 7 3000 restored "alpha-2" "o-9"
      (record {
        order_id = "o-9";
        client_order_id = "alpha-2-3000-000041-r07";
        accepted_at = pos 3;
      })
      (pos 3 ∷ pos 3 ∷ []) (pos 3) restores (omega arith) refl refl (omega arith)

abbrev latest_of : Option (ℕ × EngineStateSnapshot fixed_point) → ℕ
latest_of none = 0
latest_of (some latest) = latest.0

abbrev startup : Startup fixed_point runtime
startup = record {
  load = λ kept. ok kept;
  latest_sequence_id = λ kept. ok (latest_of kept);
  replay_from = λ first kept. ok [];
  restore_snapshot = λ kept c. (kept.state, ok tt);
  snapshot = λ sequence now c. record { state = c; sequence_id = sequence; snapshot_at = now };
}

loads :
    (kept latest : Option (ℕ × EngineStateSnapshot fixed_point))
    → startup.load kept ≡ ok latest
    → kept ≡ latest
loads kept latest h = ground arith

abbrev startup_laws : StartupLaws fixed_point runtime startup
startup_laws = record { load_latest = loads; state-restore_snapshot = λ kept c h. refl }

abbrev renewed : Map ClientOrderIdGenerator
renewed = ("beta", record { agent_prefix = "beta"; restart_epoch = 8; counter = 1 }) ∷ []

renews : restore_client_order_generators fixed_point ended.snapshot_cache.state 8 ≡ ok renewed
unfolding run process_command handle_command handle_submit_order accept find_existing_ack lookup
    next_client_order_id handle_venue_ack insert is_pending drain_pending_commands
    restore_client_order_generators show_ℤ ◌*ℤ◌ next new show_ℕ show_padded
renews = refl

reads : startup.latest_sequence_id ended.journal ≡ ok ended.snapshot_cache.sequence_id
unfolding run process_command handle_command handle_submit_order find_existing_ack lookup
    next_client_order_id handle_venue_ack insert is_pending drain_pending_commands
reads = refl

-- The start after the session finds the order's identifier in the cache.
start-run_example :
    let final = ended.snapshot_cache in
    (final.sequence_id ≤ final.sequence_id
      → (s : Sequencer fixed_point runtime) × (start fixed_point runtime startup idle ended.journal
            1 8 none
          ≡ ok s)
        × (s.core ≡ ended.core)
        × (s.snapshot_cache ≡ final)
        × (s.client_order_id_generators ≡ renewed)
        × IsDurable fixed_point runtime laws s
        × (s.next_sequence ≡ final.sequence_id + 1))
    × (final.sequence_id < final.sequence_id
        → (e : EngineError) × (start fixed_point runtime startup idle ended.journal 1 8 none
            ≡ err e))
start-run_example =
    start-run fixed_point runtime startup laws startup_laws session started ended.snapshot_cache
      idle 1 8 none ended.journal ended.snapshot_cache.sequence_id renewed (refl, refl, omega arith)
      (omega arith) session-IsTaken ends_well refl reads refl renews
