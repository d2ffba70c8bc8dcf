-- ===== src/Stable.antt =====
-- What every handler of a connection does, step by step: an interface over a relation between the
-- states before and after, which the relation fills once for each kind of step, and from which
-- the modules below derive the relation for whole handlers.
pub mod Rules
pub mod Reading
pub mod Printing
pub mod Parsing
pub mod Memory
pub mod Sending
