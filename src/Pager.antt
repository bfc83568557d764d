-- ===== src/Pager.antt =====
-- The packed B-tree writer of rust/velr-cli/src/offline_import/native/page_writer.rs: pages, the
-- shared block allocator, the writer's state, and the trees it builds.
pub mod Error
pub mod Page
pub mod Alloc
pub mod Writer
pub mod Tree
mod Tests
