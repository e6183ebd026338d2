-- ===== src/Examples.antt =====
-- Runs of the models on concrete inputs.
mod Errors
mod Handlers
mod Connections
mod Clients
mod CommandLine
mod Configs
mod Loading
mod Names
mod Trees
mod Validation
mod Flags
mod ConnectCalls
mod Files
mod Generation
mod PrintedConfigs
