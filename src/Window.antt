-- ===== src/Window.antt =====
-- src/stream/receive_window.rs: the sizing of the receive buffer.
pub mod Defs
pub mod Laws
