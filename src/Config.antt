-- ===== src/Config.antt =====
-- config: layered loading of configuration messages.
pub mod Bootstrap
pub mod Load
pub mod Parse
pub mod Field
pub mod Json
pub mod Secrets
pub mod File
