-- ===== src/Engine/Fresh.antt =====
-- crates/engine-core/src/sequencer.rs: after a restart no client order identifier is handed out again.
use feynman_engine.Prelude.{
  ℕ, ◌+◌, ◌%◌, ◌<◌, ◌^◌, ◌≡◌, ◌≢◌, refl, sym, ◌∙◌, subst, ap, inl, inr, some, String, List, [], ◌∷◌,
  Map, lookup, length, arith, Option-cases,
}
use feynman_engine.Prelude.Int.{pos}
use feynman_engine.Externs.{Externs}
use feynman_engine.Engine.State.{EngineState, OrderAck}
use feynman_engine.Engine.Events.{ok}
use feynman_engine.Engine.Ids.{
  ClientOrderIdGenerator, with_start_seq, parse_agent, parse_sequence, next, new, or_new,
}
use feynman_engine.Engine.Restore.{generators, next_sequences, restore_client_order_generators}
use feynman_engine.Engine.RoundTrip.{parse-next}
use feynman_engine.Engine.Resumed.{
  IsBounded, nothing-IsBounded, generators_lem, generators_only, Covers, next_sequences-Covers,
  next_sequences-IsBounded, to_generators_ok,
}

module _ (E : Externs) where
  -- The generator after identifiers were drawn from it at the given times.
  abbrev pub drawn : ClientOrderIdGenerator → List E.DateTime → ClientOrderIdGenerator
  drawn gen [] = gen
  drawn gen (now ∷ times) = drawn (next E gen now).1 times

  drawn_lem :
      (gen : ClientOrderIdGenerator) (times : List E.DateTime)
      → gen.counter + length times < 2 ^ 64
      → ((drawn gen times).agent_prefix ≡ gen.agent_prefix)
        × ((drawn gen times).restart_epoch ≡ gen.restart_epoch)
        × ((drawn gen times).counter ≡ gen.counter + length times)
  unfolding next
  drawn_lem gen [] h = (refl, refl, omega arith)
  drawn_lem gen (now ∷ times) h =
      let moved : (gen.counter + 1) % 2 ^ 64 ≡ gen.counter + 1 = omega arith in
      let (agent, epoch, counter) = drawn_lem (next E gen now).1 times (omega (arith, moved)) in
      (agent, epoch, omega (arith, moved, counter))

  -- The generator that an agent uses after the restart.
  or_new_lem :
      (epoch : ℕ) (m : Map ℕ) (agent : String)
      → let gen = or_new (lookup agent (generators epoch m)) agent epoch in
        (gen.agent_prefix ≡ agent)
        × (gen.restart_epoch ≡ epoch)
        × ((k : ℕ) → lookup agent m ≡ some k → gen.counter ≡ k)
  unfolding new with_start_seq
  or_new_lem epoch m agent = elim (Option-cases (lookup agent (generators epoch m))) [
    | inl missing ↦
        rw missing
          (refl, refl, λ k found. absurd (ground (arith, generators_lem epoch agent m k found)))
    | inr (gen, there) ↦
        let (k, found, made) = generators_only epoch agent m gen there in
        rw (there, made) (refl, refl, λ other same. ground arith)
  ]

  module _ (epoch millis : ℕ) (times : List E.DateTime) (now : E.DateTime) where
    -- An identifier that is covered comes before what the generators hand out.
    covered_ids_are_old :
        (m : Map ℕ) (agent id : String)
        → IsBounded m
        → Covers E id m
        → epoch < 2 ^ 16
        → E.timestamp_millis now ≡ pos millis
        → let gen = or_new (lookup agent (generators epoch m)) agent epoch in
          gen.counter + length times < 2 ^ 64 → (next E (drawn gen times) now).0 ≢ id
    covered_ids_are_old m agent id bounded (a, s, named, counted, (k, reached, below)) small time
          fits same =
        let gen = or_new (lookup agent (generators epoch m)) agent epoch in
        let (gen_agent, gen_epoch, gen_counter) = or_new_lem epoch m agent in
        let (agent', epoch', counter') = drawn_lem gen times fits in
        let (parsed_agent, parsed_sequence, parsed_epoch) =
          parse-next E (drawn gen times) now millis (rw counter' fits)
            (rw (epoch', gen_epoch) small) time in
        let agents : some a ≡ some (drawn gen times).agent_prefix =
          sym named ∙ ap parse_agent (sym same) ∙ parsed_agent in
        let sequences : some s ≡ some (drawn gen times).counter =
          sym counted ∙ ap parse_sequence (sym same) ∙ parsed_sequence in
        let one : a ≡ agent = ground (arith, agents, agent', gen_agent) in
        let two : s ≡ gen.counter + length times = ground (arith, sequences, counter') in
        let three = gen_counter k (rw (← one) reached) in omega (arith, two, three, below)

  -- After a restart that restores the generators, with a restart epoch that is a u16, no identifier
  -- of the cache is handed out again: to no agent, at no time from 1970 on, and whatever was handed
  -- out since the restart, as long as the agent's counter does not wrap around.
  pub restored_ids_are_new :
      (state : EngineState E) (epoch millis : ℕ) (gens : Map ClientOrderIdGenerator)
      (agent key : String) (ack : OrderAck E) (times : List E.DateTime) (now : E.DateTime)
      → restore_client_order_generators E state epoch ≡ ok gens
      → epoch < 2 ^ 16
      → E.timestamp_millis now ≡ pos millis
      → lookup key state.idempotency_cache ≡ some ack
      → let gen = or_new (lookup agent gens) agent epoch in
        gen.counter + length times < 2 ^ 64 → (next E (drawn gen times) now).0 ≢ ack.client_order_id
  unfolding restore_client_order_generators
  restored_ids_are_new state epoch millis gens agent key ack times now h small time cached fits
        same =
      let (m, walked, made) =
        to_generators_ok E (next_sequences E state.idempotency_cache []) epoch gens h in
      let covers = next_sequences-Covers E state.idempotency_cache [] m key ack walked cached in
      let bounded =
        next_sequences-IsBounded E state.idempotency_cache [] m walked nothing-IsBounded in
      subst
        (λ g.
          let gen = or_new (lookup agent g) agent epoch in
          gen.counter + length times < 2 ^ 64
          → (next E (drawn gen times) now).0 ≢ ack.client_order_id)
        (sym made)
        (covered_ids_are_old epoch millis times now m agent ack.client_order_id bounded covers small
          time)
        fits same
