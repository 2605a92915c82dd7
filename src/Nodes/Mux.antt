-- ===== src/Nodes/Mux.antt =====
-- mod/nodes/src/mux.go and mux_sessions.go: the sessions of one link and the handlers of its frames.
-- Sessions are shared objects: the store holds them by reference, and the sessions map holds the
-- references. A handler is one step; RouteQuery and handleInboundQuery are split where they wait.
pub mod Registry
pub mod Sessions
pub mod Handlers
pub mod Queries
pub mod Steps
pub mod Closing
pub mod Replies
pub mod Outbound
pub use astrald.Sig.{SigMap}
pub use astrald.Prelude.{update}
use astrald.Prelude.{
  ℕ, ◌≡◌, Bool, not, Option, none, some, List, is_some, contains, ◌==◌, if◌then◌else◌, true,
}
use astrald.Nodes.Session.{Session}

-- `wire_state` is the state of the link; `made` counts the sessions in the store.
pub record Mux (maps : SigMap) (W : Type 0) : Type 0 where
  pub local_identity : ℕ
  pub remote_identity : ℕ
  pub sessions : maps.Map
  pub store : ℕ → Session
  pub made : ℕ
  pub router_set : Bool
  pub wire_state : W
