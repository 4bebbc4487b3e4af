-- ===== src/Lifecycle/Quantities.antt =====
-- crates/types/src/pipeline.rs: the quantities of a `LiveOrder` over any events of its venue.
use feynman_engine.Prelude.{
  ℕ, ◌+◌, ◌≤◌, ◌<◌, ◌≡◌, refl, ◌∙◌, subst, List, [], ◌∷◌, ◌++◌, All, All-append, arith,
}
use feynman_engine.Externs.{Externs, ExactArithmetic}
use feynman_engine.Externs.Arithmetic.{
  above, below, add_parts, sub_parts, zero_above, zero_below, lt_true, lt_false,
}
use feynman_engine.Types.Pipeline.{PipelineOrder, Routed}
use feynman_engine.Lifecycle.State.{
  Fill, FillSummary, VenueState, submitted, accepted, triggered, partially_filled, filled,
  venue_rejected, cancelled, expired, Outcome, ok, err, try_transition,
}
use feynman_engine.Lifecycle.Order.{
  LiveOrder, from_routed, VenueEvent, accept, trigger, fill, cancel, reject, expire, handle,
  or_keep, run, on_accepted, on_triggered, on_fill, on_cancel, on_reject, on_expire, summary_after,
}

module _ (E : Externs) (X : ExactArithmetic E) where
  open E use {Decimal, DateTime}

  -- The filled quantity, as a whole number of units.
  abbrev pub total : List (Fill E) → ℕ
  total [] = 0
  total (f ∷ fs) = above E X f.qty + total fs

  total-append : (fs gs : List (Fill E)) → total (fs ++ gs) ≡ total fs + total gs
  total-append [] gs = omega arith
  total-append (f ∷ fs) gs = omega (arith, total-append fs gs)

  abbrev pub IsPositiveFill : Fill E → Type 0
  IsPositiveFill f = 0 < above E X f.qty

  -- A summary that shows the order's quantities.
  abbrev pub Shows : FillSummary E → LiveOrder E → Type 0
  Shows s o = (s.filled_qty ≡ o.filled_qty) × (s.remaining_qty ≡ o.remaining_qty)

  -- What the state says of the quantities.
  abbrev pub StateFits : VenueState E → LiveOrder E → Type 0
  StateFits submitted o = o.fills ≡ []
  StateFits (accepted _) o = o.fills ≡ []
  StateFits (triggered _) o = o.fills ≡ []
  StateFits (partially_filled s) o =
      Shows s o × (0 < above E X o.filled_qty) × (0 < above E X o.remaining_qty)
  StateFits (filled s _) o =
      Shows s o × (0 < above E X o.filled_qty) × (above E X o.remaining_qty ≡ 0)
  StateFits (venue_rejected _ _) o = o.fills ≡ []
  StateFits (cancelled _ s _) o = Shows s o
  StateFits (expired s _) o = Shows s o × (o.fills ≡ [])

  pub record IsConsistent (o : LiveOrder E) : Type 0 where
    pub filled_nonneg : below E X o.filled_qty ≡ 0
    pub remaining_nonneg : below E X o.remaining_qty ≡ 0
    pub conserved : above E X o.filled_qty + above E X o.remaining_qty ≡ above E X o.core.qty
    pub accounted : above E X o.filled_qty ≡ total o.fills
    pub positive : All IsPositiveFill o.fills
    pub state_fits : StateFits o.venue_state o

  abbrev pub Keeps : Outcome E (LiveOrder E) → Type 0
  Keeps (ok o) = IsConsistent o
  Keeps (err _) = Unit

  module _ (o : LiveOrder E) (c : IsConsistent o) where
    on_accepted-Keeps : (id : _) (now : DateTime) → Keeps (on_accepted E o id now)
    unfolding on_accepted try_transition
    on_accepted-Keeps id now = ground arith

    on_triggered-Keeps : (now : DateTime) → Keeps (on_triggered E o now)
    unfolding on_triggered try_transition
    on_triggered-Keeps now = ground arith

    on_cancel-Keeps : (reason : _) (now : DateTime) → Keeps (on_cancel E o reason now)
    unfolding on_cancel try_transition
    on_cancel-Keeps reason now = ground arith

    on_reject-Keeps : (reason : _) (now : DateTime) → Keeps (on_reject E o reason now)
    unfolding on_reject try_transition
    on_reject-Keeps reason now = ground arith

    on_expire-Keeps : (now : DateTime) → Keeps (on_expire E o now)
    unfolding on_expire try_transition
    on_expire-Keeps now = ground arith

    on_fill-Keeps : (f : Fill E) (now : DateTime) → Keeps (on_fill E o f now)
    unfolding on_fill try_transition summary_after
    on_fill-Keeps f now = ground (
      arith,
      lt_true E X E.zero_dec f.qty,
      lt_false E X o.remaining_qty f.qty,
      lt_true E X E.zero_dec (E.sub o.remaining_qty f.qty),
      lt_false E X E.zero_dec (E.sub o.remaining_qty f.qty),
      zero_above E X,
      zero_below E X,
      add_parts E X o.filled_qty f.qty,
      sub_parts E X o.remaining_qty f.qty,
      total-append o.fills (f ∷ []),
      All-append o.fills (f ∷ []) IsPositiveFill,
    )

    handle-Keeps : (e : VenueEvent E) → Keeps (handle E o e)
    unfolding handle
    handle-Keeps (accept id now) = on_accepted-Keeps id now
    handle-Keeps (trigger now) = on_triggered-Keeps now
    handle-Keeps (fill f now) = on_fill-Keeps f now
    handle-Keeps (cancel reason now) = on_cancel-Keeps reason now
    handle-Keeps (reject reason now) = on_reject-Keeps reason now
    handle-Keeps (expire now) = on_expire-Keeps now

  or_keep-IsConsistent :
      (o : LiveOrder E) (r : Outcome E (LiveOrder E))
      → IsConsistent o
      → Keeps r
      → IsConsistent (or_keep E o r)
  or_keep-IsConsistent o (ok o') c k = k
  or_keep-IsConsistent o (err e) c k = c

  -- Every event of the venue, accepted or refused, keeps the quantities of an order consistent:
  -- what is filled and what remains add up to the order's quantity, the fills are positive and add
  -- up to what is filled, and the state agrees with both.
  pub run-IsConsistent :
      (o : LiveOrder E) (es : List (VenueEvent E)) → IsConsistent o → IsConsistent (run E o es)
  unfolding run
  run-IsConsistent o [] c = c
  run-IsConsistent o (e ∷ es) c =
      run-IsConsistent (or_keep E o (handle E o e)) es
        (or_keep-IsConsistent o (handle E o e) c (handle-Keeps o c e))

  -- An order is consistent when it is submitted, if its quantity is not negative.
  from_routed-IsConsistent :
      (r : PipelineOrder E (Routed E)) (now : DateTime)
      → below E X r.core.qty ≡ 0
      → IsConsistent (from_routed E r now)
  unfolding from_routed
  from_routed-IsConsistent r now h = ground (arith, zero_above E X, zero_below E X)

  same_core :
      (o : LiveOrder E) (e : VenueEvent E)
      → let o' = or_keep E o (handle E o e) in
        (o'.core ≡ o.core)
        × (o'.client_order_id ≡ o.client_order_id)
        × (o'.risk_approval ≡ o.risk_approval)
        × (o'.submitted_at ≡ o.submitted_at)
  unfolding handle on_accepted on_triggered on_fill on_cancel on_reject on_expire
  same_core o e = ground arith

  -- No event changes the order's core fields, its client order identifier, its risk approval or its
  -- submission time.
  pub run_identity :
      (o : LiveOrder E) (es : List (VenueEvent E))
      → let o' = run E o es in
        (o'.core ≡ o.core)
        × (o'.client_order_id ≡ o.client_order_id)
        × (o'.risk_approval ≡ o.risk_approval)
        × (o'.submitted_at ≡ o.submitted_at)
  unfolding run
  run_identity o [] = (refl, refl, refl, refl)
  run_identity o (e ∷ es) =
      let (c, k, a, t) = run_identity (or_keep E o (handle E o e)) es in
      let (c', k', a', t') = same_core o e in (c ∙ c', k ∙ k', a ∙ a', t ∙ t')

  -- How much of the order the fills make up, by the order's state.
  abbrev pub FillsFit : VenueState E → ℕ → ℕ → Type 0
  FillsFit (filled _ _) done qty = done ≡ qty
  FillsFit (partially_filled _) done qty = (0 < done) × (done < qty)
  FillsFit (cancelled _ _ _) done qty = done ≤ qty
  FillsFit _ done qty = done ≡ 0

  fills_fit :
      (o : LiveOrder E) (s : VenueState E)
      → s ≡ o.venue_state
      → IsConsistent o
      → FillsFit s (total o.fills) (above E X o.core.qty) × (total o.fills ≤ above E X o.core.qty)
  fills_fit o submitted e c = ground arith
  fills_fit o (accepted t) e c = ground arith
  fills_fit o (triggered t) e c = ground arith
  fills_fit o (partially_filled s) e c = ground arith
  fills_fit o (filled s t) e c = ground arith
  fills_fit o (venue_rejected r t) e c = ground arith
  fills_fit o (cancelled r s t) e c = ground arith
  fills_fit o (expired s t) e c = ground arith

  -- Whatever the venue reports after a routed order of non-negative quantity is submitted, the
  -- fills never exceed the quantity that was approved; they make up all of it when the order is
  -- filled, some but not all of it when it is partially filled, at most all of it when it was
  -- cancelled, and nothing in any other state, expired included.
  pub never_overfilled :
      (r : PipelineOrder E (Routed E)) (now : DateTime) (es : List (VenueEvent E))
      → below E X r.core.qty ≡ 0
      → let o = run E (from_routed E r now) es in
        FillsFit o.venue_state (total o.fills) (above E X r.core.qty)
        × (total o.fills ≤ above E X r.core.qty)
  unfolding from_routed
  never_overfilled r now es h =
      let o = run E (from_routed E r now) es in
      let core = (run_identity (from_routed E r now) es).0 in
      subst
        (λ k.
          FillsFit o.venue_state (total o.fills) (above E X k.qty)
          × (total o.fills ≤ above E X k.qty))
        core
        (fills_fit o o.venue_state refl
          (run-IsConsistent (from_routed E r now) es (from_routed-IsConsistent r now h)))
