-- ===== src/Authd.antt =====
-- secureEye/src/authd: the daemon's protocol, access rule, camera arbiter and request handlers.
pub mod Framing
pub mod Requests
pub mod Access
pub mod Camera
pub mod Messages
pub mod Sessions
pub mod Watch
pub mod Manage
pub mod Workers
pub mod Server
pub mod Main
