-- ===== src/Agent.antt =====
-- src/agent/, one module for each part.
pub mod Protocol
pub mod Status
pub mod Clients
pub mod Link
pub mod Actor
pub mod Loop
pub mod Handler
pub mod Client
pub mod Metrics
pub mod Paths
pub mod Startup
pub mod Serve
pub mod Process
pub mod Wire
pub mod Signals
