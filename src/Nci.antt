-- ===== src/Nci.antt =====
-- src/nci: the NFC Controller Interface.
pub mod Header
pub mod Types
pub mod Constants
pub mod Commands
pub mod Responses
pub mod Events
pub mod Session
pub mod Reach
pub mod Contract
pub mod Total
