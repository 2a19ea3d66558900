-- ===== src/Examples.antt =====
-- The theorems at concrete inputs, with the data that they are tried on.
pub mod Security
pub mod Schools
pub mod Extensions
pub mod Installations
pub mod Catalogue
pub mod Controls
pub mod Publication
pub mod Domains
pub mod Records
pub mod Sample
