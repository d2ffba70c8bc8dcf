-- ===== src/Packet.antt =====
-- src/choppacket.c, by its three parts.
pub mod Utility
pub mod Sending
pub mod Receiving
