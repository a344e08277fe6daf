-- ===== src/Simulation.antt =====
-- simulation-client/src: the program that drives the frontend's routes with simulated users.
pub mod Numbers
pub mod Actions
pub mod Settings
pub mod Client
pub mod Personas
pub mod Users
pub mod Workflow
pub mod Manager
pub mod Startup
mod Samples
mod Tests
