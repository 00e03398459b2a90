-- ===== src/Content.antt =====
-- packages/db/src/repositories/contents.ts and the routes over it: documents, their history, the
-- tree of pages, the mirror of media references, and the listings.
pub mod Rows
pub mod Database
pub mod Transaction
pub mod Tree
pub mod Schema
pub mod References
pub mod History
pub mod Frame
pub mod Write
pub mod Listing
pub mod Routes
mod Tests
