-- ===== src/Tags.antt =====
-- src/tags: the tag API over the NCI layer.
pub mod Types
pub mod Type2
pub mod Interface
pub mod Stack
pub mod Callbacks
pub mod Handlers
pub mod Switches
pub mod Coupling
pub mod Advance
pub mod Sending
pub mod System
pub mod Progress
pub mod Stale
pub mod Busy
pub mod Served
pub mod Told
pub mod Meaning
pub mod Chosen
pub mod Found
pub mod Calm
