-- ===== src/Server.antt =====
-- src/agent/copilotkit_server.py: the routes, behind the middleware.
pub mod Routes
pub mod Threads
mod Tests
pub mod Answers
pub mod Padding
pub mod Isolation
pub mod Lifespan
pub mod Concurrent
pub mod Stream
pub mod Gateway
