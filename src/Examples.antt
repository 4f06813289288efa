-- ===== src/Examples.antt =====
-- Tests, and the theorems at concrete inputs.
mod Packets
mod Serial
mod Failover
mod Lines
mod Servers
mod Values
mod Sessions
mod Device
