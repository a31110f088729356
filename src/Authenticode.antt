-- ===== src/Authenticode.antt =====
-- src/internal/AuthenticodeDigestField.cpp: the fingerprint in an Authenticode signature. Elements
-- has the walk over the DER elements, Oid the object identifiers, Field the whole; Safety and Digits
-- are about them.
pub mod Elements
pub mod Oid
pub mod Field
mod Safety
mod Digits
mod Tests
