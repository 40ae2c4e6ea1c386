-- ===== src/Semantic.antt =====
-- semantic/: the query contract that the model fills in, and the catalog of fields.
pub mod Schema
pub mod Catalog
