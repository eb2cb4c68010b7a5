-- ===== src/Connd.antt =====
-- server/connd: the gateway that clients connect to. `Session` is its table of sessions, `Dispatch`
-- the routing of what clients send.
pub mod Session
pub mod Dispatch
