-- ===== src/Tests.antt =====
-- Runs of the model on concrete inputs.
mod Toy
mod Licences
mod Keys
mod Renewals
mod Attempts
mod Posts
mod Projects
mod Orders
mod Operations
mod Threads
mod Timestamps
mod Savers
mod Storage
mod MachineIds
mod Configs
