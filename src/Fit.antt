-- ===== src/Fit.antt =====
-- Where the handlers of a connection stay inside the arrays that they use: an invariant of the
-- connection, one rule for each way to build an action, and from them whole requests.
pub mod Segments
pub mod Rules
pub mod Printing
pub mod Appending
pub mod Reading
pub mod Text
pub mod Parsing
