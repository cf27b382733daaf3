-- ===== src/App.antt =====
-- app/: the configuration of an application, its services and their handlers, and Run.
pub mod Config
pub mod Services
pub mod Routes
pub mod Startup
pub mod Boot
