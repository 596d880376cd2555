-- ===== src/Std.antt =====
-- What the sources use of Go's standard library: instants, text, base64 and hexadecimal.
pub mod Time
pub mod Text
pub mod Base64
pub mod Hex
