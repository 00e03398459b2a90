-- ===== src/Media.antt =====
-- apps/api/src/media: what stands between an upload and the image library, and the objects that a
-- deletion leaves behind.
pub mod Admission
pub mod Orphans
