-- ===== src/Manage.antt =====
-- src/chopconn.c: the clients of a server, one request of a client, and the tests of a client's
-- flags and of an address.
pub mod Request
pub mod Clients
pub mod Address
pub mod Establish
