-- ===== src/Gateway/Errors.antt =====
-- crates/gateway/src/lib.rs: the errors of the gateway.
use feynman_engine.Prelude.{ℕ, String, Bool, true, false, ◌≡◌, refl, arith}
use feynman_engine.Prelude.Text.{◌++◌}
use feynman_engine.Externs.{Externs}

-- An `anyhow` error is its text, and a duration a number of nanoseconds.
pub data GatewayError : Type 0 where
  venue_not_connected : String → String → GatewayError
  agent_allocation_not_found price_unavailable : String → GatewayError
  stale_price : String → ℕ → GatewayError
  routing_unavailable : String → String → GatewayError
  timeout : String → ℕ → GatewayError
  venue_rejected order_not_found unsupported validation internal : String → GatewayError

unfoldable pub show_error : (E : Externs) → GatewayError → String
show_error E (venue_not_connected venue state) =
    "venue " ++ (venue ++ (" is not connected (state: " ++ (state ++ ")")))
show_error E (agent_allocation_not_found agent) = "agent allocation not found for " ++ agent
show_error E (price_unavailable instrument) = "price unavailable for instrument " ++ instrument
show_error E (stale_price instrument max_age) =
    "price for instrument "
    ++ (instrument ++ (" is stale (max age " ++ (E.debug_duration max_age ++ ")")))
show_error E (routing_unavailable instrument reason) =
    "no route available for instrument " ++ (instrument ++ (": " ++ reason))
show_error E (timeout operation elapsed) =
    "operation timed out after " ++ (E.debug_duration elapsed ++ (": " ++ operation))
show_error E (venue_rejected reason) = "venue rejected order: " ++ reason
show_error E (order_not_found id) = "order not found: " ++ id
show_error E (unsupported what) = "venue does not support: " ++ what
show_error E (validation text) = "validation failed: " ++ text
show_error E (internal text) = text

-- `Result<T>`
pub data Result (A : Type 0) : Type 0 where
  ok : A → Result A
  err : GatewayError → Result A

infixl 5 ◌>>=◌
abbrev pub ◌>>=◌ : {A B : Type 0} → Result A → (A → Result B) → Result B
ok a >>= f = f a
err e >>= f = err e

-- `if !passed { return Err(e) }`
abbrev pub require : Bool → GatewayError → Result Unit
require true e = ok tt
require false e = err e

-- A chain that succeeds has a first step that succeeds.
pub bind_ok :
    {A B : Type 0} (m : Result A) (f : A → Result B) (b : B)
    → (m >>= f) ≡ ok b
    → (a : A) × (m ≡ ok a) × (f a ≡ ok b)
bind_ok (ok a) f b h = (a, refl, h)
bind_ok (err e) f b h = ground arith

pub ok_inj : {A : Type 0} (a b : A) → ◌≡◌ {A = Result A} (ok a) (ok b) → a ≡ b
ok_inj a b h = ground arith
