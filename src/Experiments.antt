-- ===== src/Experiments.antt =====
-- experiments: small programs beside httptap, each in a directory of its own. Most try one of the
-- techniques that httptap uses.
pub mod GoProxy
pub mod DnsProxy
pub mod Namespaced
pub mod Intercept
pub mod Tun2socks
pub mod Ordered
pub mod Echo
pub mod Clients
pub mod Tls
pub mod Runners
