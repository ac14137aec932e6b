-- ===== src/Rfb.antt =====
-- local-agent/pkg/vnc: the agent as a client of the BMC's VNC server, and as a server of the browser.
pub mod Stream
mod Tests
pub mod Version
pub mod Security
pub mod VncAuth
