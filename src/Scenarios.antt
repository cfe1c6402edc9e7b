-- ===== src/Scenarios.antt =====
-- Tests of the definitions, and the theorems at work on concrete data.
mod Packets
mod Configs
mod Publishers
mod Agents
mod Listeners
mod Rounds
mod Serving
