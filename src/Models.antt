-- ===== src/Models.antt =====
-- models/: the values that the components exchange.
pub mod Instance
pub mod Desired
pub mod Csv
pub mod Pending
pub mod Priority
pub mod App
pub mod Auth
