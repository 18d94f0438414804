-- ===== src/Catalog.antt =====
-- The catalogue (src/modules/catalog): products and their versions.
pub mod Products
pub mod Versions
mod Tests
