-- ===== src/Schema.antt =====
-- src/property.hpp, src/object_schema.cpp, src/schema.cpp and src/object_store.cpp: the schema of a
-- file, the changes from one schema to another, and which of them each mode accepts and applies.
pub mod Names
pub mod Properties
pub mod Change
pub mod Compare
pub mod Lookup
pub mod Zip
pub mod Verify
pub mod Apply
pub mod Validate
pub mod Modes
pub mod Loops
