-- ===== src/Gateway/Routing.antt =====
-- crates/gateway/src/lib.rs: the venue that `select_venue` picks.
use feynman_engine.Prelude.{
  ◌≡◌, refl, subst, inl, inr, true, false, Option, none, some, String, List, [], ◌∷◌, All, Any,
  arith, Bool-cases, if◌then◌else◌,
}
use feynman_engine.Externs.{Externs, ExactArithmetic}
use feynman_engine.Externs.Arithmetic.{lt_true, lt_false, lt_irrefl, lt_asymm}
use feynman_engine.Types.Limits.{AgentRiskLimits}
use feynman_engine.Engine.State.{Signal}
use feynman_engine.Gateway.Errors.{ok, bind_ok, ok_inj, require}
use feynman_engine.Gateway.Symbols.{VenueSymbol, SymbolMap, venues_for}
use feynman_engine.Gateway.Bridge.{
  SignalOrderBridge, VenueRouteState, SignalRoutingPolicy, first_listed, highest_available_balance,
  usable, find_state, balance_of, eligible, keep_max, richest, choose, select_venue, mapped_venues,
  is_allowed, allowed_instruments, allowed_venues,
}
use feynman_engine.Gateway.Served.{Permits, IsConnected, is_allowed_iff, usable_iff}

module _ (E : Externs) where
  open E use {Decimal, lt}

  -- Every usable listing is kept with its balance, and no other.
  eligible-All :
      (P : VenueSymbol × Decimal → Type 0) (mapped : List VenueSymbol)
      (allowed : Option (List String)) (states : List (VenueRouteState E))
      → ((l : VenueSymbol)
          → Any (λ m. m ≡ l) mapped
          → usable E (find_state E l.venue_id states) allowed l.venue_id ≡ true
          → P (l, balance_of E (find_state E l.venue_id states)))
      → All P (eligible E mapped allowed states)
  unfolding eligible
  eligible-All P [] allowed states keep = tt
  eligible-All P (l ∷ rest) allowed states keep =
      let later = eligible-All P rest allowed states (λ m among. keep m (inr among)) in
      elim (Bool-cases (usable E (find_state E l.venue_id states) allowed l.venue_id)) [
        | inl fits ↦ rw fits (keep l (inl refl) fits, later)
        | inr unfit ↦ rw unfit later
      ]

  keep_max_cases :
      (P : VenueSymbol × Decimal → Type 0) (best c : VenueSymbol × Decimal)
      → P best
      → P c
      → P (keep_max E best c)
  keep_max_cases P best c p q = elim (lt c.1 best.1) as (λ b. P (if b then best else c)) [
    | true ↦ p
    | false ↦ q
  ]

  richest-All :
      (P : VenueSymbol × Decimal → Type 0) (best : VenueSymbol × Decimal)
      (rest : List (VenueSymbol × Decimal))
      → P best
      → All P rest
      → P (richest E best rest)
  unfolding richest
  richest-All P best [] p ps = p
  richest-All P best (c ∷ rest) p (q, qs) =
      richest-All P (keep_max E best c) rest (keep_max_cases P best c p q) qs

  module _ (X : ExactArithmetic E) where
    -- No candidate has more than `amount`.
    abbrev pub AtMost : Decimal → VenueSymbol × Decimal → Type 0
    AtMost amount candidate = lt amount candidate.1 ≡ false

    AtMost-trans :
        (a b : Decimal) (c : VenueSymbol × Decimal) → lt a b ≡ false → AtMost b c → AtMost a c
    AtMost-trans a b c h k = ground (arith, lt_false E X a b, lt_false E X b c.1, lt_true E X a c.1)

    All-AtMost :
        (a b : Decimal) (cs : List (VenueSymbol × Decimal))
        → lt a b ≡ false
        → All (AtMost b) cs
        → All (AtMost a) cs
    All-AtMost a b [] h ks = tt
    All-AtMost a b (c ∷ cs) h (k, ks) = (AtMost-trans a b c h k, All-AtMost a b cs h ks)

    keep_max-AtMost :
        (best c : VenueSymbol × Decimal)
        → AtMost (keep_max E best c).1 best × AtMost (keep_max E best c).1 c
    keep_max-AtMost best c =
        ground (arith, lt_irrefl E X best.1, lt_irrefl E X c.1, lt_asymm E X c.1 best.1)

    -- `max_by` returns an element with the highest balance.
    richest-AtMost :
        (best : VenueSymbol × Decimal) (rest : List (VenueSymbol × Decimal))
        → (lt (richest E best rest).1 best.1 ≡ false) × All (AtMost (richest E best rest).1) rest
    unfolding richest
    richest-AtMost best [] = (lt_irrefl E X best.1, tt)
    richest-AtMost best (c ∷ rest) =
        let kept = keep_max E best c in
        let (most, others) = richest-AtMost kept rest in
        let (over_best, over_c) = keep_max-AtMost best c in
        let top = (richest E kept rest).1 in
        (
          AtMost-trans top kept.1 best most over_best,
          (AtMost-trans top kept.1 c most over_c, others),
        )

  -- The venue is listed for the instrument, allowed, and connected.
  abbrev pub IsServed :
      Option (List VenueSymbol)
      → Option (List String)
      → List (VenueRouteState E)
      → VenueSymbol
      → Type 0
  IsServed none allowed states venue = ⊥
  IsServed (some listings) allowed states venue =
      Any (λ l. l ≡ venue) listings
      × Permits E allowed venue.venue_id
      × IsConnected E (find_state E venue.venue_id states)

  -- No listing that is served has a venue with a higher balance.
  abbrev pub IsRichest :
      SignalRoutingPolicy
      → Option (List VenueSymbol)
      → Option (List String)
      → List (VenueRouteState E)
      → VenueSymbol
      → Type 0
  IsRichest first_listed listings allowed states venue = Unit
  IsRichest highest_available_balance listings allowed states venue =
      (other : VenueSymbol)
      → IsServed listings allowed states other
      → lt (balance_of E (find_state E venue.venue_id states))
          (balance_of E (find_state E other.venue_id states))
        ≡ false

  module _ (X : ExactArithmetic E) where
    -- A property of all candidates holds of each served listing.
    eligible-has :
        (P : VenueSymbol × Decimal → Type 0) (mapped : List VenueSymbol)
        (allowed : Option (List String)) (states : List (VenueRouteState E)) (l : VenueSymbol)
        → All P (eligible E mapped allowed states)
        → Any (λ m. m ≡ l) mapped
        → usable E (find_state E l.venue_id states) allowed l.venue_id ≡ true
        → P (l, balance_of E (find_state E l.venue_id states))
    unfolding eligible
    eligible-has P [] allowed states l ps among fits = elim among [ ]
    eligible-has P (m ∷ rest) allowed states l ps among fits =
        elim (Bool-cases (usable E (find_state E m.venue_id states) allowed m.venue_id)) [
          | inl kept ↦
              let (p, later) = rw kept at ps in
              elim among [
                | inl same ↦
                    subst (λ k. P (k, balance_of E (find_state E k.venue_id states))) same p
                | inr further ↦ eligible-has P rest allowed states l later further fits
              ]
          | inr dropped ↦
              let later = rw dropped at ps in
              elim among [
                | inl same ↦ absurd (
                    ground (
                      arith,
                      subst
                          (λ k.
                            usable E (find_state E k.venue_id states) allowed k.venue_id ≡ false)
                          same dropped,
                    ))
                | inr further ↦ eligible-has P rest allowed states l later further fits
              ]
        ]

    mapped_listings :
        (m : SymbolMap) (instrument : String) (mapped : List VenueSymbol)
        → mapped_venues E m instrument ≡ ok mapped
        → venues_for instrument m ≡ some mapped
    unfolding mapped_venues
    mapped_listings m instrument mapped h = ground arith

    -- What the choice among the served listings guarantees.
    abbrev IsChoice :
        SignalRoutingPolicy
        → List VenueSymbol
        → Option (List String)
        → List (VenueRouteState E)
        → VenueSymbol
        → Type 0
    IsChoice policy mapped allowed states venue =
        IsServed (some mapped) allowed states venue
        × IsRichest policy (some mapped) allowed states venue

    -- A candidate is served and carries the balance of its venue.
    abbrev IsCandidate :
        List VenueSymbol
        → Option (List String)
        → List (VenueRouteState E)
        → VenueSymbol × Decimal
        → Type 0
    IsCandidate mapped allowed states c =
        IsServed (some mapped) allowed states c.0
        × (c.1 ≡ balance_of E (find_state E c.0.venue_id states))

    chosen :
        (policy : SignalRoutingPolicy) (instrument : String) (mapped : List VenueSymbol)
        (allowed : Option (List String)) (states : List (VenueRouteState E))
        (candidates : List (VenueSymbol × Decimal)) (venue : VenueSymbol)
        → All (IsCandidate mapped allowed states) candidates
        → ((amount : Decimal)
            → All (AtMost X amount) candidates
            → (other : VenueSymbol) → IsServed (some mapped) allowed states other
            → lt amount (balance_of E (find_state E other.venue_id states)) ≡ false)
        → choose E policy instrument candidates ≡ ok venue
        → IsChoice policy mapped allowed states venue
    chosen first_listed instrument mapped allowed states (c ∷ rest) venue (p, ps) top h =
        (subst (IsServed (some mapped) allowed states) (ok_inj c.0 venue h) p.0, tt)
    chosen highest_available_balance instrument mapped allowed states (c ∷ rest) venue (p, ps) top
          h =
        let best = richest E c rest in
        let (served, balance) = richest-All (IsCandidate mapped allowed states) c rest p ps in
        subst (IsChoice highest_available_balance mapped allowed states) (ok_inj best.0 venue h) (
          served,
          λ other also.
              subst (λ a. lt a (balance_of E (find_state E other.venue_id states)) ≡ false) balance
                (top best.1 (richest-AtMost X c rest) other also),
        )
    chosen policy instrument mapped allowed states [] venue ps top h = absurd (ground arith)

    -- A selected venue is one that the agent may use: the instrument is allowed, the symbol map
    -- lists it there, the venue is allowed, and it is connected. Under the policy of the highest
    -- available balance, no other such venue has a higher balance.
    pub select_venue-IsServed :
        (bridge : SignalOrderBridge E) (signal : Signal E) (limits : Option (AgentRiskLimits E))
        (states : List (VenueRouteState E)) (venue : VenueSymbol)
        → select_venue E bridge signal limits states ≡ ok venue
        → let listings = venues_for signal.instrument bridge.symbol_map in
          Permits E (allowed_instruments E limits) signal.instrument
          × IsServed listings (allowed_venues E limits) states venue
          × IsRichest bridge.config.routing_policy listings (allowed_venues E limits) states venue
    unfolding select_venue
    select_venue-IsServed bridge signal limits states venue h =
        let allowed = allowed_venues E limits in
        let (u, permitted, h1) =
          bind_ok (require (is_allowed E (allowed_instruments E limits) signal.instrument) _) _
            venue h in
        let (mapped, listed, h2) =
          bind_ok (mapped_venues E bridge.symbol_map signal.instrument) _ venue h1 in
        let choice =
          chosen bridge.config.routing_policy signal.instrument mapped allowed states
            (eligible E mapped allowed states) venue
            (eligible-All (IsCandidate mapped allowed states) mapped allowed states (λ l among fits.
              let (permits, up) =
                (usable_iff E (find_state E l.venue_id states) allowed l.venue_id).0 fits in
              ((among, permits, up), refl)))
            (λ amount most other also.
              eligible-has (AtMost X amount) mapped allowed states other most also.0 (
                (usable_iff E (find_state E other.venue_id states) allowed other.venue_id).1
                  (also.1, also.2)))
            h2 in
        let mapping = mapped_listings bridge.symbol_map signal.instrument mapped listed in
        let instruments = allowed_instruments E limits in
        (
          ground (arith, is_allowed_iff E instruments signal.instrument),
          rw mapping choice.0,
          rw mapping choice.1,
        )
