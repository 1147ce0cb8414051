-- ===== src/Detectors.antt =====
-- secureEye/src/detectors: finding and encoding faces with MediaPipe, and loading dlib's models.
pub mod Mediapipe
pub mod Dlib
pub mod Tests
