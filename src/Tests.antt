-- ===== src/Tests.antt =====
-- Concrete runs of the model, and the properties at concrete inputs.
mod World
mod Stored
mod Pipeline
mod Services
mod Runs
mod Chain
mod Network
mod Nodes
mod Local
