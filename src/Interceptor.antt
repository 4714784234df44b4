-- ===== src/Interceptor.antt =====
-- internal/ociinterceptor: the OCI runtime wrapper.
pub mod Tweaks
pub mod Bundle
pub mod Config
pub mod Runtime
mod Examples
