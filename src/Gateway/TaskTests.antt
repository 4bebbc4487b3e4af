-- ===== src/Gateway/TaskTests.antt =====
-- The submit task on the samples, with one paper adapter that has a book.
use feynman_engine.Prelude.{◌≡◌, refl, some, true, List, [], ◌∷◌, lookup}
use feynman_engine.Prelude.Int.{pos}
use feynman_engine.Externs.FixedPoint.{fixed_point, exact}
use feynman_engine.Engine.Events.{SequencerCommand}
use feynman_engine.Gateway.Submission.{order_core_from_submission, from_routed}
use feynman_engine.Gateway.Place.{submit_order}
use feynman_engine.Gateway.Conserving.{simulate-IsConserving}
use feynman_engine.Gateway.Calls.{connects, replaces}
use feynman_engine.Gateway.SubmitTask.{VenueSubmitTask, submit_one}
use feynman_engine.Gateway.Delivery.{report_of, submit_one-report_of}
use feynman_engine.Gateway.Reported.{paper_adapter, IsPaperReport, submit_paper-IsPaperReport}
use feynman_engine.Gateway.Samples.{book, calculate, simulator, adapter, routed}

abbrev task : VenueSubmitTask fixed_point (paper_adapter fixed_point)
task = record { adapters = ("sim", adapter) ∷ []; sequencer_open = true; delivered = [] }

registered : lookup "sim" task.adapters ≡ some adapter
unfolding lookup
registered = refl

submit_paper-IsPaperReport_example :
    let s = from_routed fixed_point routed in
    (commands : List (SequencerCommand fixed_point)) × ((submit_one fixed_point
        (paper_adapter fixed_point)
        routed
        (pos 8)
        (pos 9)
        task).delivered
      ≡ commands)
    × IsPaperReport fixed_point exact adapter s "o-1"
        (pos 9)
        commands
        (submit_order fixed_point adapter s)
unfolding order_core_from_submission
submit_paper-IsPaperReport_example =
    submit_paper-IsPaperReport fixed_point exact "sim" simulator
      (connects (pos 1) ∷ replaces book ∷ []) task routed (pos 8) (pos 9)
      (simulate-IsConserving fixed_point exact calculate) refl registered

submit_one-report_of_example :
    (submit_one fixed_point (paper_adapter fixed_point) routed (pos 8) (pos 9) task).delivered
    ≡ report_of fixed_point
        (paper_adapter fixed_point)
        (lookup "sim" task.adapters)
        routed
        (pos 8)
        (pos 9)
unfolding order_core_from_submission
submit_one-report_of_example =
    submit_one-report_of fixed_point (paper_adapter fixed_point) task routed (pos 8) (pos 9) refl
