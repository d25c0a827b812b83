-- ===== src/Examples.antt =====
-- The theorems at concrete inputs: one connection of a subprocess to a web server, a DNS query, a
-- compressed response.
pub mod Data
pub mod Routing
pub mod Tcp
pub mod Dns
pub mod Http
pub mod Har
pub mod Device
pub mod Mounts
pub mod Launch
pub mod Gvisor
pub mod Experiments
