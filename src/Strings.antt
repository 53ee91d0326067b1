-- ===== src/Strings.antt =====
-- common/src/string.cpp and common/include/ervan/string.hpp.
pub mod Join
pub mod Base64
pub mod Look
pub mod Unique
pub mod Span
