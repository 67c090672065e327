-- ===== src/Tests.antt =====
-- Runs of the model on concrete inputs.
mod Samples
mod Parsing
mod Attributes
mod Folders
mod Identity
mod Cpus
mod Client
mod Freeing
mod Tables
mod Memory
