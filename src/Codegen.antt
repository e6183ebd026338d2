-- ===== src/Codegen.antt =====
-- internal/codegen: the parts of the generator that compute names, the command tree and the checks.
pub mod Naming
pub mod Tree
pub mod ConfigModel
pub mod Validate
pub mod Descriptors
pub mod Options
pub mod Inputs
pub mod ConfigSpec
pub mod ConfigCode
pub mod ConfigRun
pub mod Services
