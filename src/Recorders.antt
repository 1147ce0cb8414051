-- ===== src/Recorders.antt =====
-- secureEye/src/recorders: the camera behind one interface, through OpenCV or one of two readers.
pub mod Ffmpeg
pub mod Pyv4l2
pub mod VideoCapture
mod Tests
