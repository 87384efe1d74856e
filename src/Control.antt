-- ===== src/Control.antt =====
-- src/bbdd-d.c, src/bbdd-c.h: the configuration that requests carry, and what it does to sessions.
pub mod State
pub mod Validate
pub mod Apply
pub mod Select
pub mod Applied
pub mod Configured
pub mod Matching
pub mod Members
pub mod Dirs
pub mod Entering
pub mod Adding
pub mod Requests
pub mod Sound
pub mod Deleting
pub mod Growing
pub mod Replacing
pub mod Setting
pub mod Serving
pub mod Always
