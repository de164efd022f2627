-- ===== src/Examples.antt =====
-- Runs of the modelled code on concrete inputs.
pub mod Settings
pub mod Tables
pub mod Commands
pub mod Ticks
pub mod Schedule
pub mod Guards
pub mod Access
pub mod Campaigns
