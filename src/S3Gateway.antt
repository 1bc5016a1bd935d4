-- ===== src/S3Gateway.antt =====
-- s3gw: the access control by addresses, and the handlers.
pub mod AllowDeny
pub mod Handlers
