-- ===== src/Catalogue.antt =====
-- backend/src/platform/extensions.service.ts: the extensions that publishers offer.
pub mod Members
pub mod Types
pub mod Rows
pub mod Graph
pub mod Releases
pub mod Standing
pub mod Currency
pub mod Prices
