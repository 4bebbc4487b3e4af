-- ===== src/Gateway/Served.antt =====
-- crates/gateway/src/lib.rs: what the tests of `select_venue` on a listing mean.
use feynman_engine.Prelude.{
  ◌≡◌, ◌↔◌, true, Option, none, some, String, List, [], ◌∷◌, Any, any, arith, str_eq, eq_iff,
}
use feynman_engine.Externs.{Externs}
use feynman_engine.Types.Venue.{ConnectionState, connected, is_connected}
use feynman_engine.Gateway.Bridge.{VenueRouteState, usable, is_allowed}

module _ (E : Externs) where
  -- A list of allowed names, if there is one, has the name.
  abbrev pub Permits : Option (List String) → String → Type 0
  Permits none id = Unit
  Permits (some ids) id = Any (λ a. a ≡ id) ids

  -- The venue is known and its connection is up.
  abbrev pub IsConnected : Option (VenueRouteState E) → Type 0
  IsConnected none = ⊥
  IsConnected (some state) = state.connection_health.state ≡ connected

  any_iff :
      (ids : List String) (id : String)
      → (any (λ a. str_eq a id) ids ≡ true) ↔ Any (λ a. a ≡ id) ids
  any_iff [] id = ground arith
  any_iff (a ∷ ids) id = ground (arith, any_iff ids id, eq_iff a id)

  pub is_allowed_iff :
      (allowed : Option (List String)) (id : String)
      → (is_allowed E allowed id ≡ true) ↔ Permits allowed id
  is_allowed_iff none id = ground arith
  is_allowed_iff (some ids) id = any_iff ids id

  connected_iff : (c : ConnectionState E) → (is_connected E c ≡ true) ↔ (c ≡ connected)
  connected_iff c = ground arith

  pub usable_iff :
      (state : Option (VenueRouteState E)) (allowed : Option (List String)) (venue : String)
      → (usable E state allowed venue ≡ true) ↔ (Permits allowed venue × IsConnected state)
  usable_iff none allowed venue = ground arith
  usable_iff (some state) allowed venue =
      ground (arith, is_allowed_iff allowed venue, connected_iff state.connection_health.state)
