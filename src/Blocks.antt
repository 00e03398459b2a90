-- ===== src/Blocks.antt =====
-- packages/blocks/src: the block vocabulary, and what editing does to it.
pub mod Vocabulary
pub mod Editing
pub mod UniqueIds
mod Tests
