-- ===== src/Vnc.antt =====
-- local-agent/pkg/vnc: the agent between a BMC's VNC server, at which it authenticates, and a browser,
-- which it admits without a password.
pub mod Native
pub mod Proxy
pub mod Adapter
pub mod Transport
pub mod Served
mod Tests
