-- ===== src/Types/Venue.antt =====
-- crates/types/src/venue.rs: the health of a venue connection.
use feynman_engine.Prelude.{ℕ, Option, none, Bool, true, false, String}
use feynman_engine.Prelude.Text.{◌++◌, show_ℕ}
use feynman_engine.Externs.{Externs}

pub data ConnectionState (E : Externs) : Type 0 where
  disconnected connecting connected : ConnectionState E
  heartbeat_late : E.DateTime → ℕ → ConnectionState E
  stale : E.DateTime → E.DateTime → ConnectionState E
  reconnecting : ℕ → ConnectionState E

pub record VenueConnectionHealth (E : Externs) : Type 0 where
  pub venue_id : String
  pub state : ConnectionState E
  pub last_message_at : Option E.DateTime
  pub last_heartbeat_at : Option E.DateTime
  pub heartbeat_latency_ms : Option ℕ
  pub reconnect_count : ℕ
  pub connected_since : Option E.DateTime

module _ (E : Externs) where
  abbrev pub is_connected : ConnectionState E → Bool
  is_connected connected = true
  is_connected _ = false

  -- Only a connected venue takes orders.
  abbrev pub is_submittable : VenueConnectionHealth E → Bool
  is_submittable h = is_connected h.state

  -- `{:?}` of a connection state.
  unfoldable pub debug_state : ConnectionState E → String
  debug_state disconnected = "Disconnected"
  debug_state connecting = "Connecting"
  debug_state connected = "Connected"
  debug_state (heartbeat_late last missed) =
      "HeartbeatLate { last_heartbeat: "
      ++ E.debug_time last
      ++ ", missed_count: "
      ++ show_ℕ missed
      ++ " }"
  debug_state (stale last since) =
      "Stale { last_heartbeat: "
      ++ E.debug_time last
      ++ ", stale_since: "
      ++ E.debug_time since
      ++ " }"
  debug_state (reconnecting attempt) = "Reconnecting { attempt: " ++ show_ℕ attempt ++ " }"

  -- `VenueConnectionHealth::new`
  unfoldable pub new : String → VenueConnectionHealth E
  new venue_id = record {
    venue_id = venue_id;
    state = disconnected;
    last_message_at = none;
    last_heartbeat_at = none;
    heartbeat_latency_ms = none;
    reconnect_count = 0;
    connected_since = none;
  }

  abbrev degraded_state : ConnectionState E → Bool
  degraded_state (heartbeat_late _ _) = true
  degraded_state (stale _ _) = true
  degraded_state (reconnecting _) = true
  degraded_state _ = false

  unfoldable pub is_degraded : VenueConnectionHealth E → Bool
  is_degraded h = degraded_state h.state
