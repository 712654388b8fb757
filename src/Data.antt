-- ===== src/Data.antt =====
-- The data that the store keeps: massbit/src/data/store/mod.rs.
pub mod Value
pub mod Entity
pub mod Conversions
