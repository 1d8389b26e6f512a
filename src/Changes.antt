-- ===== src/Changes.antt =====
-- src/impl/collection_change_builder.hpp and .cpp: `CollectionChangeBuilder` and the change set of
-- src/collection_notifications.hpp that it extends.
pub mod Moves
pub mod Builder
pub mod Invariant
pub mod Rows
pub mod Merge
pub mod Diff
pub mod Finalize
