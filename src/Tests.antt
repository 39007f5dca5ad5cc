-- ===== src/Tests.antt =====
-- The theorems at concrete inputs.
mod Apps
mod Systems
mod Audio
mod Clients
mod Configs
mod Protocols
mod Queues
mod Devices
mod Messages
mod Programs
mod Trees
