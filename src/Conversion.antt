-- ===== src/Conversion.antt =====
-- The converters of services/media/framework_mojo/mojo_type_conversions.cc.
pub mod Enums
pub mod Types
pub mod Sets
pub mod Arrays
pub mod Metadata
mod Tests
