-- ===== src/ContainerManager.antt =====
-- containermanager/containers.go, part by part.
pub mod Registry
pub mod Limits
pub mod Stream
pub mod Execute
pub mod Sharing
pub mod Create
pub mod Find
