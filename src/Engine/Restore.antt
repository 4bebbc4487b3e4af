-- ===== src/Engine/Restore.antt =====
-- crates/engine-core/src/sequencer.rs: `restore_client_order_generators`, which resumes the counters
-- of the client order identifiers from the cache of acknowledgements.
use feynman_engine.Prelude.{
  ℕ, suc, ◌^◌, Option, none, some, String, [], ◌∷◌, Map, lookup, insert, leb, ltb, if◌then◌else◌,
}
use feynman_engine.Prelude.Text.{◌++◌}
use feynman_engine.Externs.{Externs}
use feynman_engine.Engine.State.{EngineState, OrderAck}
use feynman_engine.Engine.Events.{Result, ok, err, internal}
use feynman_engine.Engine.Ids.{ClientOrderIdGenerator, with_start_seq, parse_agent, parse_sequence}

-- `checked_add(1)` of a u64
abbrev pub checked_next : Option ℕ → Option ℕ
checked_next none = none
checked_next (some sequence) = if ltb (suc sequence) (2 ^ 64) then some (suc sequence) else none

-- `Ord::max`
abbrev pub max : ℕ → ℕ → ℕ
max a b = if leb a b then b else a

abbrev pub raised : Option ℕ → ℕ → ℕ
raised none next_sequence = next_sequence
raised (some current) next_sequence = max current next_sequence

-- `entry(agent).and_modify(…).or_insert(…)`
unfoldable pub record_sequence : String → ℕ → Map ℕ → Map ℕ
record_sequence agent next_sequence sequences =
    insert agent (raised (lookup agent sequences) next_sequence) sequences

abbrev malformed : String → String → Result (Map ℕ)
malformed id what =
    err (internal ("persisted client_order_id " ++ (id ++ (" is malformed: " ++ what))))

-- One acknowledgement, by the parts of its identifier.
abbrev pub take_parts : Option String → Option ℕ → String → Map ℕ → Result (Map ℕ)
take_parts none next_sequence id sequences = malformed id "missing agent prefix"
take_parts (some agent) none id sequences = malformed id "missing or overflowing sequence"
take_parts (some agent) (some next_sequence) id sequences =
    ok (record_sequence agent next_sequence sequences)

unfoldable pub take_ack : String → Map ℕ → Result (Map ℕ)
unfolding parse_agent parse_sequence record_sequence
take_ack id sequences = take_parts (parse_agent id) (checked_next (parse_sequence id)) id sequences

-- The generators of the sequences that were found.
unfoldable pub generators : ℕ → Map ℕ → Map ClientOrderIdGenerator
unfolding with_start_seq
generators restart_epoch [] = []
generators restart_epoch (entry ∷ rest) =
    (entry.0, with_start_seq entry.0 restart_epoch entry.1) ∷ generators restart_epoch rest

module _ (E : Externs) where
  abbrev pub and_continue : Result (Map ℕ) → (Map ℕ → Result (Map ℕ)) → Result (Map ℕ)
  and_continue (ok sequences) rest = rest sequences
  and_continue r rest = r

  -- `for ack in state.idempotency_cache.values()`
  unfoldable pub next_sequences : Map (OrderAck E) → Map ℕ → Result (Map ℕ)
  unfolding take_ack
  next_sequences [] sequences = ok sequences
  next_sequences (entry ∷ rest) sequences =
      and_continue (take_ack entry.1.client_order_id sequences) (next_sequences rest)

  abbrev pub to_generators : Result (Map ℕ) → ℕ → Result (Map ClientOrderIdGenerator)
  to_generators (ok sequences) restart_epoch = ok (generators restart_epoch sequences)
  to_generators (err e) restart_epoch = err e
  to_generators (Result.panic text) restart_epoch = Result.panic text

  unfoldable pub restore_client_order_generators :
      EngineState E → ℕ → Result (Map ClientOrderIdGenerator)
  unfolding next_sequences generators
  restore_client_order_generators state restart_epoch =
      to_generators (next_sequences state.idempotency_cache []) restart_epoch
