-- ===== src/Control.antt =====
-- The control socket, src/control/: the requests of its protocol and their validation.
pub mod Protocol
pub mod Validate
pub mod Request
pub mod Accepted
