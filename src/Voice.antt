-- ===== src/Voice.antt =====
-- The texts of dictated drafts of the mobile app: mobile/src/lib/voice-draft.ts.
pub mod Draft
pub mod RoundTrip
mod Tests
