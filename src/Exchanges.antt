-- ===== src/Exchanges.antt =====
-- What the list and the inspector read from an exchange: ui/src/lib/exchange.ts and the parts of
-- ui/src/lib/utils.ts and ui/src/lib/tokens.ts that classify and filter.
pub mod Filter
pub mod Status
pub mod StatusLines
pub mod Headers
pub mod Pinned
pub mod Masking
pub mod Size
pub mod Sizes
pub mod TraceColors
pub mod Hex
