-- ===== src/Cache/Control/Ttl.antt =====
-- The time to live that control.rs resolves.
use stateform.Prelude.{ℕ, ◌≤◌, Option, none, some}
use stateform.Config.Schema.{Duration}
use stateform.Cache.Control.{from_secs}

-- At most the declared seconds, if any are declared.
pub Within : Duration → Option ℕ → Type 0
Within t none = Unit
Within t (some secs) = t ≤ from_secs secs
