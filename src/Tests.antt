-- ===== src/Tests.antt =====
-- Runs of the model on concrete inputs, and the theorems at concrete inputs.
mod ServerList
mod Tables
mod Policies
mod Handlers
mod Mappings
mod StateFile
mod Arguments
mod Queries
mod Running
