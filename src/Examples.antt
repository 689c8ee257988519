-- ===== src/Examples.antt =====
-- The theorems at concrete inputs: an answer of a model that passes, sessions, replies of a service.
pub mod Ascii
pub mod Stores
mod Questions
mod Calls
mod Breakers
mod Uploads
mod Users
