-- ===== src/Proxy.antt =====
-- The proxies themselves: their construction, and the context of one proxied call.
pub mod Build
pub mod Invocation
pub mod Replay
pub mod Fuel
