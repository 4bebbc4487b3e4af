-- ===== src/Engine/Inbox.antt =====
-- crates/engine-core/src/sequencer.rs: the two command channels. `send` waits while its channel is
-- full; here a command is sent when there is room for it.
use feynman_engine.Prelude.{
  ℕ, zero, suc, ◌+◌, ◌≡◌, refl, ◌∙◌, ap, ◌≤◌, Bool, true, false, Option, none, some, List, [], ◌∷◌,
  ◌++◌, length, arith, if◌then◌else◌, sym, append_assoc, append_nil,
}
use feynman_engine.Externs.{Externs}
use feynman_engine.Engine.Events.{SequencerCommand, ok, is_high_priority}
use feynman_engine.Engine.Runtime.{Runtime}
use feynman_engine.Engine.Sequencer.{Step, ◌>>=◌}
use feynman_engine.Engine.Process.{process_command, drain_pending_commands}

pub record Inbox (E : Externs) : Type 0 where
  pub high_priority : List (SequencerCommand E)
  pub command : List (SequencerCommand E)

module _ (E : Externs) where
  abbrev pub empty_inbox : Inbox E
  empty_inbox = record { high_priority = []; command = [] }

  -- `SequencerHandle::send`
  unfoldable pub send : SequencerCommand E → Inbox E → Inbox E
  send c inbox =
      if is_high_priority E c
      then record inbox { high_priority = inbox.high_priority ++ (c ∷ []) }
      else record inbox { command = inbox.command ++ (c ∷ []) }

  abbrev pub send_all : List (SequencerCommand E) → Inbox E → Inbox E
  send_all [] inbox = inbox
  send_all (c ∷ cs) inbox = send_all cs (send c inbox)

  abbrev pub try_normal : List (SequencerCommand E) → Option (SequencerCommand E × Inbox E)
  try_normal [] = none
  try_normal (c ∷ cs) = some (c, record { high_priority = []; command = cs })

  abbrev try_queues :
      List (SequencerCommand E) → List (SequencerCommand E) → Option (SequencerCommand E × Inbox E)
  try_queues [] command = try_normal command
  try_queues (c ∷ cs) command = some (c, record { high_priority = cs; command = command })

  unfoldable pub try_next_pending_command : Inbox E → Option (SequencerCommand E × Inbox E)
  try_next_pending_command inbox = try_queues inbox.high_priority inbox.command

  -- The commands of one priority, in order.
  abbrev pub of_priority : Bool → List (SequencerCommand E) → List (SequencerCommand E)
  of_priority high [] = []
  of_priority high (c ∷ cs) =
      let rest = of_priority high cs in
      if is_high_priority E c
      then (if high then c ∷ rest else rest)
      else (if high then rest else c ∷ rest)

  send_all_queues :
      (cs : List (SequencerCommand E)) (inbox : Inbox E)
      → ((send_all cs inbox).high_priority ≡ inbox.high_priority ++ of_priority true cs)
        × ((send_all cs inbox).command ≡ inbox.command ++ of_priority false cs)
  unfolding send
  send_all_queues [] inbox = (sym (append_nil inbox.high_priority), sym (append_nil inbox.command))
  send_all_queues (c ∷ cs) inbox =
      let (high, normal) = send_all_queues cs (send c inbox) in
      grind (
        arith,
        high,
        normal,
        append_assoc inbox.high_priority (c ∷ []) (of_priority true cs),
        append_assoc inbox.command (c ∷ []) (of_priority false cs),
      )

  length-of_priority :
      (cs : List (SequencerCommand E))
      → length (of_priority true cs) + length (of_priority false cs) ≡ length cs
  length-of_priority [] = refl
  length-of_priority (c ∷ cs) = let rest = length-of_priority cs in ground (arith, rest)

  -- The commands, each with the clock's reading when it is processed: `clock n` is the n-th one.
  abbrev pub timed :
      (ℕ → E.DateTime) → ℕ → List (SequencerCommand E) → List (SequencerCommand E × E.DateTime)
  timed clock n [] = []
  timed clock n (c ∷ cs) = (c, clock n) ∷ timed clock (suc n) cs

  module _ (R : Runtime E) (clock : ℕ → E.DateTime) where
    -- The loop of `drain_pending_commands` over the two channels, for `fuel` rounds from the n-th.
    unfoldable pub drain_inbox : ℕ → ℕ → Inbox E → Step E R Unit
    drain_inbox n zero inbox = λ s. (s, ok tt)
    drain_inbox n (suc fuel) inbox = elim (try_next_pending_command inbox) [
      | none ↦ λ s. (s, ok tt)
      | some (c, rest) ↦ do dropped ← process_command E R c (clock n); drain_inbox (suc n) fuel rest
    ]

    drain_queues :
        (n fuel : ℕ) (high normal : List (SequencerCommand E))
        → length high + length normal ≤ fuel
        → drain_inbox n fuel (record { high_priority = high; command = normal })
          ≡ drain_pending_commands E R (timed clock n (high ++ normal))
    unfolding try_next_pending_command drain_inbox drain_pending_commands
    drain_queues n zero [] [] h = refl
    drain_queues n zero (c ∷ cs) normal h = absurd (omega arith)
    drain_queues n zero [] (c ∷ cs) h = absurd (omega arith)
    drain_queues n (suc fuel) [] [] h = refl
    drain_queues n (suc fuel) [] (c ∷ cs) h =
        ap (λ later. process_command E R c (clock n) >>= (λ dropped. later))
          (drain_queues (suc n) fuel [] cs (omega arith))
    drain_queues n (suc fuel) (c ∷ cs) normal h =
        ap (λ later. process_command E R c (clock n) >>= (λ dropped. later))
          (drain_queues (suc n) fuel cs normal (omega arith))

    -- Commands wait in the two channels, sent in the order of `cs`, and no more are sent. The drain
    -- then processes them one after the other until one fails, whose error it returns: first those
    -- of high priority, and among the commands of one priority in the order in which they were
    -- sent. It ends after at most as many rounds as there are commands.
    pub drain_inbox-send_all :
        (cs : List (SequencerCommand E)) (n fuel : ℕ)
        → length cs ≤ fuel
        → drain_inbox n fuel (send_all cs empty_inbox)
          ≡ drain_pending_commands E R (timed clock n (of_priority true cs ++ of_priority false cs))
    drain_inbox-send_all cs n fuel enough =
        let inbox = send_all cs empty_inbox in
        let (high, normal) = send_all_queues cs empty_inbox in
        let count = length-of_priority cs in
        let split =
          drain_queues n fuel inbox.high_priority inbox.command
            (rw (high, normal) (omega (arith, count))) in
        split
        ∙ ap (λ q. drain_pending_commands E R (timed clock n (q ++ inbox.command))) high
        ∙ ap (λ q. drain_pending_commands E R (timed clock n (of_priority true cs ++ q))) normal
