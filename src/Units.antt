-- ===== src/Units.antt =====
-- src/deepx_sdk/units.py: amounts in base units and as decimals. A Decimal is a sign, a coefficient
-- and an exponent; what Decimal reads from the text of an amount is given with the amount.
mod Numbers
pub mod Exact
pub mod Precision
unfoldable pub use Numbers.*
