-- ===== src/SafeUrl.antt =====
-- The names of XOR URLs: sn_api/src/safeurl.
pub mod Codec
pub mod Fields
pub mod MediaTypes
pub mod RoundTrip
