-- ===== src/Messages.antt =====
-- The functions of the web client's messages page, web/src/pages/shared/Messages.tsx.
pub mod Mentions
pub mod Rendering
pub mod Lists
pub mod ListLaws
pub mod Roots
mod Tests
