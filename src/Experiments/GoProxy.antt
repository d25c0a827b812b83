-- ===== src/Experiments/GoProxy.antt =====
-- experiments/goproxy: a proxy that logs what passes through it. The children have the log of the
-- headers, its goroutine, the files for the bodies, and the listener that can be stopped; the proxy
-- itself, goproxy, is not part of the repository.
pub mod Stream
pub mod Meta
pub mod Logger
pub mod Listener
