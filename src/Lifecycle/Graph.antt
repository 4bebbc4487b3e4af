-- ===== src/Lifecycle/Graph.antt =====
-- crates/types/src/pipeline.rs: the diagram of `VenueState`, and the orders that move along it.
use feynman_engine.Prelude.{
  ◌≡◌, ◌↔◌, ◌⊎◌, inl, inr, refl, Bool, true, false, String, List, [], ◌∷◌, ◌++◌, if◌then◌else◌, Any,
  arith, Bool-cases,
}
use feynman_engine.Externs.{Externs}
use feynman_engine.Types.Pipeline.{PipelineOrder, Routed}
use feynman_engine.Lifecycle.State.{
  Fill, FillSummary, CancelReason, VenueState, submitted, accepted, triggered, partially_filled,
  filled, venue_rejected, cancelled, expired, Outcome, ok, err, is_terminal, is_live, valid,
  try_transition,
}
use feynman_engine.Lifecycle.Order.{
  LiveOrder, from_routed, VenueEvent, accept, handle, or_keep, run, on_accepted, on_triggered,
  on_fill, on_cancel, on_reject, on_expire, summary_after,
}

-- The diagram.
infix 4 ◌⟶◌
pub data ◌⟶◌ {E : Externs} : VenueState E → VenueState E → Type 0 where
  acknowledge : (t : E.DateTime) → submitted ⟶ accepted t
  wait_trigger : (t : E.DateTime) → submitted ⟶ triggered t
  refuse : (r : String) (t : E.DateTime) → submitted ⟶ venue_rejected r t
  fire : (t u : E.DateTime) → triggered t ⟶ accepted u
  first_fill : (t : E.DateTime) (s : FillSummary E) → accepted t ⟶ partially_filled s
  only_fill : (t : E.DateTime) (s : FillSummary E) (u : E.DateTime) → accepted t ⟶ filled s u
  withdraw :
      (t : E.DateTime) (r : CancelReason) (s : FillSummary E) (u : E.DateTime)
      → accepted t ⟶ cancelled r s u
  lapse : (t : E.DateTime) (s : FillSummary E) (u : E.DateTime) → accepted t ⟶ expired s u
  more_fill : (s s' : FillSummary E) → partially_filled s ⟶ partially_filled s'
  last_fill : (s s' : FillSummary E) (u : E.DateTime) → partially_filled s ⟶ filled s' u
  stop :
      (s : FillSummary E) (r : CancelReason) (s' : FillSummary E) (u : E.DateTime)
      → partially_filled s ⟶ cancelled r s' u

module _ {E : Externs} where
  edge_of_valid : (a b : VenueState E) → valid E a b ≡ true → a ⟶ b
  unfolding valid
  edge_of_valid submitted (accepted t) h = acknowledge t
  edge_of_valid submitted (triggered t) h = wait_trigger t
  edge_of_valid submitted (venue_rejected r t) h = refuse r t
  edge_of_valid (triggered t) (accepted u) h = fire t u
  edge_of_valid (accepted t) (partially_filled s) h = first_fill t s
  edge_of_valid (accepted t) (filled s u) h = only_fill t s u
  edge_of_valid (accepted t) (cancelled r s u) h = withdraw t r s u
  edge_of_valid (accepted t) (expired s u) h = lapse t s u
  edge_of_valid (partially_filled s) (partially_filled s') h = more_fill s s'
  edge_of_valid (partially_filled s) (filled s' u) h = last_fill s s' u
  edge_of_valid (partially_filled s) (cancelled r s' u) h = stop s r s' u
  edge_of_valid _ _ h = cc

  valid_of_edge : {a b : VenueState E} → a ⟶ b → valid E a b ≡ true
  unfolding valid
  valid_of_edge (acknowledge t) = refl
  valid_of_edge (wait_trigger t) = refl
  valid_of_edge (refuse r t) = refl
  valid_of_edge (fire t u) = refl
  valid_of_edge (first_fill t s) = refl
  valid_of_edge (only_fill t s u) = refl
  valid_of_edge (withdraw t r s u) = refl
  valid_of_edge (lapse t s u) = refl
  valid_of_edge (more_fill s s') = refl
  valid_of_edge (last_fill s s' u) = refl
  valid_of_edge (stop s r s' u) = refl

  not_granted : (a b : VenueState E) → valid E a b ≡ false → try_transition E a b ≡ ok b → ⊥
  unfolding try_transition
  not_granted a b v h = ground arith

  granted : (a b : VenueState E) → (try_transition E a b ≡ ok b) ↔ (a ⟶ b)
  unfolding try_transition
  granted a b = elim (Bool-cases (valid E a b)) [
    | inl v ↦ (λ h. edge_of_valid a b v, λ e. rw v)
    | inr v ↦ (λ h. absurd (not_granted a b v h), λ e. rw (valid_of_edge e))
  ]

module _ (E : Externs) where
  -- The event's own answer: the state that it asks for, and whether its guard lets it through.
  handle-valid :
      (o o' : LiveOrder E) (e : VenueEvent E)
      → handle E o e ≡ ok o'
      → valid E o.venue_state o'.venue_state ≡ true
  unfolding handle on_accepted on_triggered on_fill on_cancel on_reject on_expire try_transition
  handle-valid o o' e h = ground arith

  -- A transition is granted exactly along an edge of the diagram, and every event that an order
  -- accepts moves it along one.
  pub handle-⟶ :
      (o o' : LiveOrder E) (e : VenueEvent E)
      → ((to : VenueState E) → (try_transition E o.venue_state to ≡ ok to) ↔ (o.venue_state ⟶ to))
        × (handle E o e ≡ ok o' → o.venue_state ⟶ o'.venue_state)
  handle-⟶ o o' e = (λ to. granted o.venue_state to, λ h. edge_of_valid _ _ (handle-valid o o' e h))

  terminal_refuses :
      (o : LiveOrder E) (e : VenueEvent E)
      → is_terminal E o.venue_state ≡ true
      → or_keep E o (handle E o e) ≡ o
  unfolding handle on_accepted on_triggered on_fill on_cancel on_reject on_expire try_transition
      valid
  terminal_refuses o e h = ground arith

  -- An order in a terminal state stays exactly as it is, whatever events follow.
  pub run-is_terminal :
      (o : LiveOrder E) (es : List (VenueEvent E))
      → is_terminal E o.venue_state ≡ true
      → run E o es ≡ o
  unfolding run
  run-is_terminal o [] h = refl
  run-is_terminal o (e ∷ es) h = rw (terminal_refuses o e h) (run-is_terminal o es h)

  abbrev pub IsAccept : VenueEvent E → Type 0
  IsAccept (accept _ _) = Unit
  IsAccept _ = ⊥

  abbrev pub was_accepted : VenueState E → Bool
  was_accepted submitted = false
  was_accepted (triggered _) = false
  was_accepted (venue_rejected _ _) = false
  was_accepted _ = true

  only-IsAccept_opens :
      (o : LiveOrder E) (e : VenueEvent E)
      → was_accepted o.venue_state ≡ false
      → IsAccept e ⊎ (was_accepted (or_keep E o (handle E o e)).venue_state ≡ false)
  unfolding handle on_accepted on_triggered on_fill on_cancel on_reject on_expire try_transition
      valid
  only-IsAccept_opens o e h = ground arith

  opened_by-IsAccept :
      (o : LiveOrder E) (es : List (VenueEvent E))
      → was_accepted o.venue_state ≡ false
      → was_accepted (run E o es).venue_state ≡ true
      → Any IsAccept es
  unfolding run
  opened_by-IsAccept o [] h t = cc
  opened_by-IsAccept o (e ∷ es) h t = elim (only-IsAccept_opens o e h) [
    | inl a ↦ inl a
    | inr still ↦ inr (opened_by-IsAccept (or_keep E o (handle E o e)) es still t)
  ]

  -- A routed order is accepted, filled, cancelled or expired only after an acknowledgement of the
  -- venue among the events.
  pub run_needs-IsAccept :
      (r : PipelineOrder E (Routed E)) (now : E.DateTime) (es : List (VenueEvent E))
      → was_accepted (run E (from_routed E r now) es).venue_state ≡ true
      → Any IsAccept es
  unfolding from_routed
  run_needs-IsAccept r now es t = opened_by-IsAccept (from_routed E r now) es refl t

  -- What a fill must be for the order to take it.
  abbrev pub IsTakeable : LiveOrder E → Fill E → Type 0
  IsTakeable o f =
      (is_live E o.venue_state ≡ true)
      × (E.lt E.zero_dec f.qty ≡ true)
      × (E.lt o.remaining_qty f.qty ≡ false)

  abbrev pub is_ok : Outcome E (LiveOrder E) → Bool
  is_ok (ok _) = true
  is_ok (err _) = false

  -- A fill is taken exactly when the order is live on the venue and the fill's quantity is positive
  -- and at most what remains. It is then the last of the order's fills, and the order is filled if
  -- nothing is left and partially filled otherwise.
  pub on_fill_iff :
      (o : LiveOrder E) (f : Fill E) (now : E.DateTime)
      → ((is_ok (on_fill E o f now) ≡ true) ↔ IsTakeable o f)
        × (IsTakeable o f
            → let o' = or_keep E o (on_fill E o f now) in
              (o'.fills ≡ o.fills ++ (f ∷ []))
              × (o'.remaining_qty ≡ E.sub o.remaining_qty f.qty)
              × (o'.filled_qty ≡ E.add o.filled_qty f.qty)
              × (o'.venue_state ≡ (
                  if E.lt E.zero_dec (E.sub o.remaining_qty f.qty)
                  then partially_filled (summary_after E o f)
                  else filled (summary_after E o f) now)))
  unfolding on_fill try_transition valid summary_after
  on_fill_iff o f now = (ground arith, ground arith)
