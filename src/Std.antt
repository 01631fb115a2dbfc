-- ===== src/Std.antt =====
-- The parts of the C++ standard library that the program relies on: decimal numbers, text search
-- and input streams.
pub mod Decimal
pub mod Text
pub mod Stream
pub mod Getline
pub mod Convert
pub mod Map
pub mod Handles
