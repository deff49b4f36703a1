-- ===== src/Upload.antt =====
-- Uploads of recordings and attachments, in both clients.
pub mod Parts
pub mod Covering
pub mod Mobile
pub mod Pool
pub mod PartRetry
pub mod Multipart
pub mod Context
mod Tests
