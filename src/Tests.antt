-- ===== src/Tests.antt =====
-- Runs of the model on concrete inputs, and the theorems at inputs that meet their hypotheses.
mod Buffers
mod Requests
mod Rates
mod Connections
mod Echoes
mod Reactor
mod Values
mod Pollers
mod Loops
mod Clients
mod Texts
mod Servers
mod Lives
mod Basics
