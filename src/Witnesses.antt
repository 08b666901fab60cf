-- ===== src/Witnesses.antt =====
-- Runs of the modelled code on concrete inputs, and the theorems applied to them.
pub mod Handles
pub mod Tracking
pub mod Numbers
pub mod Tables
pub mod Places
pub mod Recovering
pub mod Connecting
pub mod Encoding
pub mod Reaching
pub mod Trades
