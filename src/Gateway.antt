-- ===== src/Gateway.antt =====
-- class Gateway (gateway-socket/gateway.hh, gateway.cpp).
pub mod Tables
pub mod Buffer
pub mod Icmp
pub mod Handlers
pub mod Inside
pub mod Outside
pub mod Samples
pub mod Connected
pub mod Serve
pub mod Loop
