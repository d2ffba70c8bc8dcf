-- ===== src/Data.antt =====
-- src/chopdata.c, by its parts: what moves bytes over a socket, and what scans a buffer.
pub mod Transfer
pub mod Scan
