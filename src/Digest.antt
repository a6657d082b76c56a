-- ===== src/Digest.antt =====
-- src/aero_bot/digest_admission.py: the send admission of the daily digest e-mail.
pub mod Admission
pub mod Window
mod Tests
