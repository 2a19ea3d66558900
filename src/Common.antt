-- ===== src/Common.antt =====
-- What the services share: backend/src/common.
pub mod Pages
