-- ===== src/Minidump.antt =====
-- The minidump format, as the crashpad headers declare it (crashkit/src/main/cpp/crashpad/include),
-- and the reader of server/crashpad_server.py.
pub mod Layout
pub mod Structs
pub mod Extensions
pub mod Streams
pub mod Dict
pub mod Reader
pub mod Total
pub mod Format
pub mod Content
pub mod Page
mod Tests
