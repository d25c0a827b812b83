-- ===== src/Har.antt =====
-- pkg/harlog: an http.RoundTripper that records each call in a HAR log. The children have the
-- format, the timings, the conversions and the transport.
pub mod Types
pub mod Json
pub mod Timing
pub mod Update
pub mod Transport
pub mod Recorded
pub mod Dump
