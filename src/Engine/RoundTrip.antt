-- ===== src/Engine/RoundTrip.antt =====
-- crates/types/src/ids.rs: the parts of a client order identifier are parsed back.
use feynman_engine.Prelude.{ℕ, ◌<◌, ◌^◌, ◌≡◌, refl, sym, ◌∙◌, String, none, some, arith}
use feynman_engine.Prelude.Int.{pos}
use feynman_engine.Prelude.Text.{◌++◌, show_ℕ, show_ℤ, show_padded, rsplit_once, parse_uint}
use feynman_engine.Prelude.Text.Digits.{
  one-append, parse_from-show_ℕ, parse_from-show_padded, parse_from-rsplit_once,
  parse_uint-show_padded, rsplit_once-append, rsplit_once-sep,
}
use text.Mathlib.TextLemmas.{cons-append}
use feynman_engine.Externs.{Externs}
use feynman_engine.Engine.Ids.{
  ClientOrderIdGenerator, next, split_suffix_parts, parse_agent, parse_sequence,
  parse_restart_epoch,
}

-- The identifier of `next`.
abbrev text_of : String → String → String → String → String
text_of agent millis sequence epoch =
    agent ++ ("-" ++ (millis ++ ("-" ++ (sequence ++ ("-r" ++ epoch)))))

dash_r : (epoch : String) → "-r" ++ epoch ≡ "-" ++ ("r" ++ epoch)
dash_r epoch = cons-append "-" "r" epoch ∙ sym (one-append "-" ("r" ++ epoch))

module _ (agent millis sequence epoch : String) where
  module _ (h : rsplit_once 45 epoch ≡ none) where
    epoch_undashed : rsplit_once 45 ("r" ++ epoch) ≡ none
    unfolding rsplit_once
    epoch_undashed = rw (one-append "r" epoch, h) refl

    split_epoch :
        rsplit_once 45 (text_of agent millis sequence epoch)
        ≡ some (agent ++ ("-" ++ (millis ++ ("-" ++ sequence))), "r" ++ epoch)
    split_epoch = rw (dash_r epoch) (
        rsplit_once-append 45 agent _ _ _ (
          rsplit_once-append 45 "-" _ _ _ (
            rsplit_once-append 45 millis _ _ _ (
              rsplit_once-append 45 "-" _ _ _
                (rsplit_once-sep 45 "-" sequence ("r" ++ epoch) refl epoch_undashed)))))

    split_text :
        rsplit_once 45 sequence ≡ none
        → split_suffix_parts (text_of agent millis sequence epoch)
          ≡ some ("r" ++ epoch, sequence, agent ++ ("-" ++ millis))
    unfolding split_suffix_parts
    split_text k =
        let split_sequence : rsplit_once 45 (agent ++ ("-" ++ (millis ++ ("-" ++ sequence))))
            ≡ some (agent ++ ("-" ++ millis), sequence) =
          rsplit_once-append 45 agent ("-" ++ (millis ++ ("-" ++ sequence))) ("-" ++ millis)
            sequence
            (rsplit_once-append 45 "-" (millis ++ ("-" ++ sequence)) millis sequence
              (rsplit_once-sep 45 "-" millis sequence refl k)) in
        rw (split_epoch, split_sequence) refl

    parsed_agent :
        rsplit_once 45 sequence ≡ none
        → rsplit_once 45 millis ≡ none
        → parse_agent (text_of agent millis sequence epoch) ≡ some agent
    unfolding parse_agent
    parsed_agent k m = rw (split_text k, rsplit_once-sep 45 "-" agent millis refl m) refl

    parsed_sequence :
        rsplit_once 45 sequence ≡ none
        → parse_sequence (text_of agent millis sequence epoch) ≡ parse_uint 64 sequence
    unfolding parse_sequence
    parsed_sequence k = rw (split_text k) refl

    parsed_epoch : parse_restart_epoch (text_of agent millis sequence epoch) ≡ parse_uint 16 epoch
    unfolding parse_restart_epoch
    parsed_epoch = rw (split_epoch, one-append "r" epoch) refl

module _ (E : Externs) where
  -- An identifier that the generator hands out at a time from 1970 on is parsed back into the
  -- generator's agent, even if that name has dashes, the counter's value and the restart epoch, all
  -- within the bounds of their types.
  pub parse-next :
      (gen : ClientOrderIdGenerator) (now : E.DateTime) (millis : ℕ)
      → gen.counter < 2 ^ 64
      → gen.restart_epoch < 2 ^ 16
      → E.timestamp_millis now ≡ pos millis
      → let id = (next E gen now).0 in
        (parse_agent id ≡ some gen.agent_prefix)
        × (parse_sequence id ≡ some gen.counter)
        × (parse_restart_epoch id ≡ some gen.restart_epoch)
  unfolding next show_ℤ
  parse-next gen now millis counted restarted positive =
      let agent = gen.agent_prefix in
      let time = show_ℕ millis in
      let sequence = show_padded 6 gen.counter in
      let epoch = show_padded 2 gen.restart_epoch in
      let plain_time =
        parse_from-rsplit_once 45 0 millis time (omega arith) (parse_from-show_ℕ millis) in
      let plain_sequence =
        parse_from-rsplit_once 45 0 gen.counter sequence (omega arith)
          (parse_from-show_padded 6 gen.counter) in
      let plain_epoch =
        parse_from-rsplit_once 45 0 gen.restart_epoch epoch (omega arith)
          (parse_from-show_padded 2 gen.restart_epoch) in
      rw positive (
        parsed_agent agent time sequence epoch plain_epoch plain_sequence plain_time,
        parsed_sequence agent time sequence epoch plain_epoch plain_sequence
            ∙ parse_uint-show_padded 64 6 gen.counter counted,
        parsed_epoch agent time sequence epoch plain_epoch
            ∙ parse_uint-show_padded 16 2 gen.restart_epoch restarted,
      )
