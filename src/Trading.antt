-- ===== src/Trading.antt =====
-- src/deepx_sdk/_perp_market.py and _spot_market.py: the calls of the market pallets and the reading
-- of their events.
pub mod Json
pub mod Values
pub mod Orders
pub mod Perp
pub mod Spot
pub mod Bits
pub mod Limbs
pub mod Modify
pub mod Slippage
