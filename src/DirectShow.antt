-- ===== src/DirectShow.antt =====
-- DirectShow's types as the two filters use them.
pub mod Types
pub mod Registration
