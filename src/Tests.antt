-- ===== src/Tests.antt =====
-- Test data, runs of the definitions, and the theorems at concrete inputs.
mod Worker
mod Http
mod Elastic
mod Config
mod Listing
mod Worlds
mod Domain
mod Stores
mod UseCases
mod Transfer
mod Dispatch
