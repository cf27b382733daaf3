-- ===== src/HttpServer.antt =====
-- httpserver/: the connection watcher, the middlewares and their chain.
pub mod Connections
pub mod Instrumentation
pub mod Listener
pub mod Middleware
pub mod Server
pub mod Serving
