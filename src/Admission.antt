-- ===== src/Admission.antt =====
-- internal/admission: bounded in-memory request admission.
pub mod Config
pub mod Bucket
pub mod Pool
pub mod Source
pub mod Limiter
pub mod Examples
