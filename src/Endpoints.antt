-- ===== src/Endpoints.antt =====
-- src/routes/: the endpoints that show the state of the program, each a function from what it reads.
-- A body is the value that is printed; the order of the keys in it is not modelled.
pub mod Models
pub mod Usage
pub mod Stats
pub mod Status
mod Examples
use mybro.Access.{Headers, check_auth, auth_error_body, open_ai}
use mybro.Config.{Config}
use mybro.Json.{Value}
use mybro.Prelude.{ℕ, String, Bool, List, if◌then◌else◌}

pub data Reply : Type 0 where
  -- status 200
  json : Value → Reply
  -- status 401
  unauthorized : Value → Reply
  -- another status, with a text
  plain : ℕ → String → Reply
  panicked : Reply

-- The first lines of every handler.
abbrev pub guarded : (String → String → Bool) → Config → Headers → Reply → Reply
guarded ct_eq cfg h r = if check_auth ct_eq cfg h then r else unauthorized (auth_error_body open_ai)

-- The same for a handler that changes a state.
abbrev pub guarded_with :
    {S : Type 0} → (String → String → Bool) → Config → Headers → S → Reply × S → Reply × S
guarded_with ct_eq cfg h s r =
    if check_auth ct_eq cfg h then r else (unauthorized (auth_error_body open_ai), s)
