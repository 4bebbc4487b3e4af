-- ===== src/Engine/Ids.antt =====
-- crates/types/src/ids.rs: client order identifiers, their parts, and their generator. The counter
-- is an atomic u64, which wraps around.
use feynman_engine.Prelude.{ℕ, ◌+◌, ◌%◌, ◌^◌, String, Option, none, some, ◌==◌, if◌then◌else◌}
use Prim.Native.Char.{code}
use feynman_engine.Prelude.Text.{◌++◌, show_ℤ, show_padded, rsplit_once, parse_uint}
use feynman_engine.Externs.{Externs}

abbrev split_rest : String → Option (String × String) → Option (String × String × String)
split_rest restart none = none
split_rest restart (some (before, after)) = some (restart, after, before)

abbrev split_parts : Option (String × String) → Option (String × String × String)
split_parts none = none
split_parts (some (before, after)) = split_rest after (rsplit_once 45 before)

-- `rsplitn(3, '-')`: the restart epoch, the sequence, and what is in front.
unfoldable pub split_suffix_parts : String → Option (String × String × String)
unfolding rsplit_once
split_suffix_parts id = split_parts (rsplit_once 45 id)

abbrev first_of : Option (String × String) → Option String
first_of none = none
first_of (some (before, after)) = some before

abbrev agent_of : Option (String × String × String) → Option String
agent_of none = none
agent_of (some (restart, sequence, before)) = first_of (rsplit_once 45 before)

unfoldable pub parse_agent : String → Option String
unfolding split_suffix_parts rsplit_once
parse_agent id = agent_of (split_suffix_parts id)

abbrev sequence_of : Option (String × String × String) → Option ℕ
sequence_of none = none
sequence_of (some (restart, sequence, before)) = parse_uint 64 sequence

unfoldable pub parse_sequence : String → Option ℕ
unfolding split_suffix_parts parse_uint
parse_sequence id = sequence_of (split_suffix_parts id)

-- `rsplit('-').next()`: all of the text when it has no separator.
abbrev last_part : Option (String × String) → String → String
last_part none id = id
last_part (some (before, after)) id = after

-- `strip_prefix('r')`, and the number behind it.
abbrev epoch_of : String → Option ℕ
epoch_of String.[] = none
epoch_of (String.◌∷◌ c s) = if code c == 114 then parse_uint 16 s else none

unfoldable pub parse_restart_epoch : String → Option ℕ
unfolding rsplit_once parse_uint
parse_restart_epoch id = epoch_of (last_part (rsplit_once 45 id) id)

pub record ClientOrderIdGenerator : Type 0 where
  pub agent_prefix : String
  pub restart_epoch : ℕ
  pub counter : ℕ

unfoldable pub with_start_seq : String → ℕ → ℕ → ClientOrderIdGenerator
with_start_seq agent restart_epoch start_seq = record {
  agent_prefix = agent;
  restart_epoch = restart_epoch;
  counter = start_seq;
}

unfoldable pub new : String → ℕ → ClientOrderIdGenerator
unfolding with_start_seq
new agent restart_epoch = with_start_seq agent restart_epoch 0

-- `entry(agent).or_insert_with(…)`
abbrev pub or_new : Option ClientOrderIdGenerator → String → ℕ → ClientOrderIdGenerator
or_new none agent epoch = new agent epoch
or_new (some gen) agent epoch = gen

module _ (E : Externs) where
  -- The identifier, and the generator with its counter moved on.
  unfoldable pub next : ClientOrderIdGenerator → E.DateTime → String × ClientOrderIdGenerator
  next gen now = (
    gen.agent_prefix
        ++ ("-"
            ++ (show_ℤ (E.timestamp_millis now)
                ++ ("-"
                    ++ (show_padded 6 gen.counter ++ ("-r" ++ show_padded 2 gen.restart_epoch))))),
    record gen { counter = (gen.counter + 1) % 2 ^ 64 },
  )
