-- ===== src/Control.antt =====
-- backend/control: admission of requests.
pub mod Admission
