-- ===== src/Utils.antt =====
-- packages/core/src/utils.
pub mod TimingSafeEqual
pub mod Retry
