-- ===== src/Migration.antt =====
-- server/tools/dbmigrate: the tool that brings a database's schema up to date.
pub mod Sql
pub mod Body
pub mod Engine
pub mod Commands
pub mod Calls
pub mod Outcome
pub mod Again
