-- ===== src/Decode.antt =====
-- internal/decode.
pub mod Frame
pub mod Http
pub mod Http2
pub mod Tls
pub mod Dissected
pub mod Dns
pub mod Dhcp
pub mod Quic
pub mod Transport
pub mod BadOptions
pub mod Ip
pub mod Ethernet
pub mod Dissector
