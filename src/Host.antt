-- ===== src/Host.antt =====
-- nc-host (cmd/nc-host): the desk's side.
pub mod Pairing
pub mod Hub
pub mod Files
pub mod Clipboard
pub mod Capture
pub mod Display
pub mod Sessions
pub mod Voice
pub mod Keyboard
pub mod Names
pub mod Control
pub mod Audio
pub mod Camera
pub mod Sending
