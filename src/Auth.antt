-- ===== src/Auth.antt =====
-- secureEye/src/auth: templates, matching and the sessions that use the camera.
pub mod Template
pub mod TemplateStore
pub mod ModelStore
pub mod Pipeline
pub mod Capture
pub mod Session
pub mod Enrollment
pub mod Interfaces
pub mod Legacy
pub mod Factory
pub mod Probe
